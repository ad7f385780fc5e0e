-- ===== src/Announce/Trust.antt =====
-- What the directory of components/rns_announce/rns_announce.c keeps of a destination: its key.
use meshpay_v.Base.{
  ℕ, zero, ◌≡◌, refl, sym, ap, ◌∙◌, ◌⊎◌, inl, inr, true, false, not, List, [], ◌∷◌, some, Bytes, ok,
  OnOk-ok, Result-cases, All, All-In, find_first-In, find_first-test, replicate, suc, arith, ◌==◌,
  Bool-cases, Option-cases, length, set, get_or, find_first-set, slot_for, slot_for-Cases,
  slot_for-find_first, constant_equal, constant_equal_iff,
}
use meshpay_v.Crypto.{Provider}
use meshpay_v.Destination.{hash_equal}
use meshpay_v.Packet.{Packet, packet_hash}
use meshpay_v.Announce.{Announce, verify, compute_destination_hash}
use meshpay_v.Announce.Verify.{IsAuthentic, verify-IsAuthentic, decode-destination_hash_ok}
use meshpay_v.Announce.Directory.{
  Known, is_of, find_known, entry_of, remember, verify_and_remember, cleared, empty, known_max,
}

-- A place that holds an entry of another destination, or none.
untouched :
    (table : List Known) (d destination : Bytes) (v : Known) (j : ℕ)
    → (is_of d (get_or table j cleared) ≡ true) ⊎ (not (get_or table j cleared).in_use ≡ true)
    → hash_equal d destination ≡ false
    → v.destination_hash ≡ d
    → find_known (set table j v) destination ≡ find_known table destination
unfolding find_known hash_equal
untouched table d destination v j (inr free) differ at =
    find_first-set (is_of destination) table j v cleared (ground (arith, free))
      (rw at (ground (arith, differ)))
untouched table d destination v j (inl meant) differ at =
    let x = get_or table j cleared in
    let same : x.destination_hash ≡ d =
      (constant_equal_iff x.destination_hash d).0 (ground (arith, meant)) in
    find_first-set (is_of destination) table j v cleared (rw same (ground (arith, differ)))
      (rw at (ground (arith, differ)))

-- The destination of `e` is still known, with the key of `e`.
abbrev pub Keeps : List Known → Bytes → Known → Type 0
Keeps table destination e =
    (e' : Known) × (find_known table destination ≡ some e') × (e'.public_key ≡ e.public_key)

is_of-entry_of : (a : Announce) (hash : Bytes) → is_of a.destination_hash (entry_of a hash) ≡ true
unfolding hash_equal
is_of-entry_of a hash = (constant_equal_iff a.destination_hash a.destination_hash).1 refl

Keeps-set :
    (table : List Known) (a : Announce) (hash destination : Bytes) (e : Known) (j : ℕ)
    → (is_of a.destination_hash (get_or table j cleared) ≡ true)
      ⊎ (not (get_or table j cleared).in_use ≡ true)
    → ((x : Known)
        → find_known table a.destination_hash ≡ some x
        → (x.public_key ≡ a.public_key)
          × (find_known (set table j (entry_of a hash)) a.destination_hash
              ≡ some (entry_of a hash)))
    → find_known table destination ≡ some e
    → Keeps (set table j (entry_of a hash)) destination e
unfolding hash_equal
Keeps-set table a hash destination e j place same h =
    elim (Bool-cases (hash_equal a.destination_hash destination)) [
      | inr differ ↦ (
        e,
        untouched table a.destination_hash destination (entry_of a hash) j place differ refl ∙ h,
        refl,
      )
      | inl equal ↦
          let d = (constant_equal_iff a.destination_hash destination).0 equal in
          let (key, found) = same e (rw d h) in (entry_of a hash, rw (← d) found, sym key)
    ]

Keeps-remember :
    (table : List Known) (a : Announce) (hash destination : Bytes) (e : Known)
    → find_known table destination ≡ some e
    → Keeps (remember table a hash).0 destination e
unfolding remember find_known
Keeps-remember table a hash destination e h =
    let meant = is_of a.destination_hash in
    let free = λ (x : Known). not x.in_use in
    let full = length table in
    elim (Option-cases (find_known table a.destination_hash)) [
      | inl unknown ↦ elim (slot_for-Cases meant free full table 0 full cleared) [
        | inl none_free ↦
            let at_end : (full == full) ≡ true = ground arith in
            rw (unknown, remember, none_free, at_end) (e, h, refl)
        | inr (j, s, l, place) ↦
            let at : slot_for meant free full table 0 full ≡ j = omega (arith, s) in
            let inside : (j == full) ≡ false = ground (arith, l) in
            rw (unknown, remember, at, inside)
              (Keeps-set table a hash destination e j place (λ x k. cc) h)
      ]
      | inr (x, known) ↦ elim (Bool-cases (constant_equal x.public_key a.public_key)) [
        | inr other ↦ rw (known, remember, other) (e, h, refl)
        | inl same ↦
            let (j, s, l, m, f) =
              slot_for-find_first meant free full table 0 full x (entry_of a hash) cleared known
                (is_of-entry_of a hash) in
            let at : slot_for meant free full table 0 full ≡ j = omega (arith, s) in
            let inside : (j == full) ≡ false = ground (arith, l) in
            rw (known, remember, same, at, inside)
              (Keeps-set table a hash destination e j (inl m)
                (λ y k. (
                  (constant_equal_iff y.public_key a.public_key).0
                      (let g : y ≡ x = cc in rw g same),
                  f,
                ))
                h)
      ]
    ]

module _ (p : Provider) where
  -- The key of an entry gives its destination.
  abbrev pub IsBound : Known → Type 0
  IsBound e =
      e.in_use ≡ true
      → (name_hash : Bytes) × (compute_destination_hash p name_hash e.public_key
          ≡ ok e.destination_hash)

  -- The directory after these packets.
  unfoldable pub learn : List Known → List Packet → List Known
  learn table [] = table
  learn table (k ∷ ks) = learn (verify_and_remember p table k).0 ks

  -- A packet leaves the directory as it is, or has an authentic announce entered.
  learn-Cases :
      (table : List Known) (k : Packet)
      → ((verify_and_remember p table k).0 ≡ table)
        ⊎ ((a : Announce) × (hash : Bytes) × IsAuthentic p k a
            × ((verify_and_remember p table k).0 ≡ (remember table a hash).0))
  unfolding verify_and_remember
  learn-Cases table k = elim (Result-cases (verify p k)) [
    | inr (c, e) ↦ inl (rw (e, verify_and_remember) refl)
    | inl (a, e) ↦ elim (Result-cases (packet_hash p k)) [
      | inr (c, f) ↦ inl (rw (e, verify_and_remember, f) refl)
      | inl (hash, f) ↦ inr (
        a,
        hash,
        OnOk-ok (IsAuthentic p k) (verify p k) a (verify-IsAuthentic p k) e,
        rw (e, verify_and_remember, f) refl,
      )
    ]
  ]

  Keeps-step :
      (table : List Known) (k : Packet) (destination : Bytes) (e : Known)
      → find_known table destination ≡ some e
      → Keeps (verify_and_remember p table k).0 destination e
  Keeps-step table k destination e h = elim (learn-Cases table k) [
    | inl same ↦ rw same (e, h, refl)
    | inr (a, hash, auth, same) ↦ rw same (Keeps-remember table a hash destination e h)
  ]

  Keeps-learn :
      (ks : List Packet) (table : List Known) (destination : Bytes) (e : Known)
      → find_known table destination ≡ some e
      → Keeps (learn table ks) destination e
  unfolding learn
  Keeps-learn [] table destination e h = (e, h, refl)
  Keeps-learn (k ∷ ks) table destination e h =
      let (e', h', same) = Keeps-step table k destination e h in
      let (e'', h'', same') = Keeps-learn ks (verify_and_remember p table k).0 destination e' h' in
      (e'', h'', same' ∙ same)

  All-set :
      (P : Known → Type 0) (xs : List Known) (j : ℕ) (v : Known)
      → All P xs
      → P v
      → All P (set xs j v)
  All-set P [] j v a h = tt
  All-set P (x ∷ xs) zero v a h = (h, a.1)
  All-set P (x ∷ xs) (suc j) v a h = (a.0, All-set P xs j v a.1 h)

  remember-AllBound :
      (table : List Known) (a : Announce) (hash : Bytes)
      → IsBound (entry_of a hash)
      → All IsBound table
      → All IsBound (remember table a hash).0
  unfolding remember
  remember-AllBound table a hash h t =
      let full = length table in
      let slot = slot_for (is_of a.destination_hash) (λ x. not x.in_use) full table 0 full in
      let written = All-set IsBound table slot (entry_of a hash) t h in
      elim (Option-cases (find_known table a.destination_hash)) [
        | inl unknown ↦ elim (Bool-cases (slot == full)) [
          | inl none_free ↦ rw (unknown, remember, none_free) t
          | inr free ↦ rw (unknown, remember, free) written
        ]
        | inr (x, known) ↦ elim (Bool-cases (constant_equal x.public_key a.public_key)) [
          | inr other ↦ rw (known, remember, other) t
          | inl same ↦ elim (Bool-cases (slot == full)) [
            | inl none_free ↦ rw (known, remember, same, none_free) t
            | inr free ↦ rw (known, remember, same, free) written
          ]
        ]
      ]

  learn-AllBound :
      (ks : List Packet) (table : List Known) → All IsBound table → All IsBound (learn table ks)
  unfolding learn
  learn-AllBound [] table t = t
  learn-AllBound (k ∷ ks) table t =
      learn-AllBound ks (verify_and_remember p table k).0 (elim (learn-Cases table k) [
        | inl same ↦ rw same t
        | inr (a, hash, auth, same) ↦ rw same (
            remember-AllBound table a hash
              (λ _. (
                a.name_hash,
                auth.of_key ∙ ap ok (sym (decode-destination_hash_ok k a auth.decoded)),
              ))
              t)
      ])

  empty-AllBound : (n : ℕ) → All IsBound (replicate n cleared)
  empty-AllBound zero = tt
  empty-AllBound (suc n) = (λ h. cc, empty-AllBound n)

  -- After any packets from the empty directory, a destination that is known is known with a key whose
  -- hash, with some name, gives it; and after any further packets it is still known, with this key.
  pub known_lem :
      (ks js : List Packet) (destination : Bytes) (e : Known)
      → find_known (learn empty ks) destination ≡ some e
      → ((name_hash : Bytes) × (compute_destination_hash p name_hash e.public_key ≡ ok destination))
        × Keeps (learn (learn empty ks) js) destination e
  unfolding find_known hash_equal
  known_lem ks js destination e h =
      let found = find_first-In (is_of destination) (learn empty ks) e h in
      let test = find_first-test (is_of destination) (learn empty ks) e h in
      let bound =
        All-In IsBound (learn empty ks) e (learn-AllBound ks empty (empty-AllBound known_max))
          found in
      let at = (constant_equal_iff e.destination_hash destination).0 (ground (arith, test)) in
      let (name, of_key) = bound (ground (arith, test)) in
      ((name, of_key ∙ ap ok at), Keeps-learn js (learn empty ks) destination e h)
