-- ===== src/Transport/Local.antt =====
-- The local destinations of a node (components/rns_transport_core/rns_transport_core.c).
use meshpay_v.Base.{
  ◌+◌, ◌≤◌, ◌<◌, ◌≡◌, ◌≢◌, ◌↔◌, ◌⊎◌, refl, inl, inr, true, false, ◌||◌, [], ◌∷◌, Bytes, esp_ok,
  arith, leb, length, take, set, any, add_one, take-set_end, any-append, length-set, Bool-cases,
  bytes_zero, constant_equal, constant_equal_iff,
}
use meshpay_v.Destination.{hash_equal}
use meshpay_v.Transport.{Core, local_max, init, is_local_destination, add_local_destination}

-- The count stays inside the array.
pub record IsTable (c : Core) : Type 0 where
  pub sized : length c.local_destinations ≡ local_max
  pub bounded : c.local_destination_count ≤ local_max

pub init-IsTable : IsTable init
init-IsTable = record { sized = refl; bounded = omega arith }

pub add_local_destination-IsTable :
    (c : Core) (hash : Bytes) → IsTable c → IsTable (add_local_destination c hash).0
unfolding add_local_destination
add_local_destination-IsTable c hash v = record {
  sized = ground (arith, v.sized, length-set c.local_destinations c.local_destination_count hash);
  bounded = ground (arith, v.bounded);
}

-- What becomes local.
is_local-added :
    (c : Core) (hash other : Bytes)
    → IsTable c
    → leb local_max c.local_destination_count ≡ false
    → any
        (λ h. hash_equal h other)
        (take
          (c.local_destination_count + 1)
          (set c.local_destinations c.local_destination_count hash))
      ≡ (is_local_destination c other || hash_equal hash other)
unfolding is_local_destination
is_local-added c hash other v room =
    rw
      (
        add_one,
        take-set_end c.local_destinations c.local_destination_count hash
            (ground (arith, v.sized, room)),
        any-append (λ h. hash_equal h other) (take c.local_destination_count c.local_destinations)
            (hash ∷ []),
      )
      (ground arith)

-- Adding what is local already changes nothing.
is_local-equal :
    (c : Core) (hash other : Bytes)
    → is_local_destination c hash ≡ true
    → is_local_destination c other ≡ (is_local_destination c other || hash_equal hash other)
unfolding hash_equal
is_local-equal c hash other h = elim (Bool-cases (constant_equal hash other)) [
  | inl same ↦
      let e = (constant_equal_iff hash other).0 same in
      let k : is_local_destination c other ≡ true = rw (← e) h in rw k refl
  | inr differ ↦ rw differ (ground arith)
]

-- In a well-formed table, rns_transport_core_add_local_destination succeeds exactly if the hash is
-- not zero and either is local already or finds a free place; when it succeeds, exactly that hash is
-- local besides those that were, and when it fails the node is unchanged.
pub add_local_destination_lem :
    (c : Core) (hash : Bytes)
    → IsTable c
    → ((((add_local_destination c hash).1 ≡ esp_ok) ↔ (
          (bytes_zero hash ≡ false)
          × ((is_local_destination c hash ≡ true) ⊎ (c.local_destination_count < local_max))))
        × ((add_local_destination c hash).1 ≢ esp_ok → (add_local_destination c hash).0 ≡ c)
        × ((other : Bytes)
            → (add_local_destination c hash).1 ≡ esp_ok
            → is_local_destination (add_local_destination c hash).0 other
              ≡ (is_local_destination c other || hash_equal hash other)))
unfolding add_local_destination is_local_destination
add_local_destination_lem c hash v = elim (Bool-cases (bytes_zero hash)) [
  | inl zero ↦ rw zero ((λ h. cc, λ h. cc), λ h. refl, λ other h. cc)
  | inr some ↦ elim (Bool-cases (is_local_destination c hash)) [
    | inl here ↦
        rw (some, here)
          (
            (λ h. (refl, inl refl), λ h. refl),
            λ h. refl,
            λ other h. is_local-equal c hash other here,
          )
    | inr away ↦ elim (Bool-cases (leb local_max c.local_destination_count)) [
      | inl full ↦ rw (some, away, full) ((λ h. cc, λ h. ground arith), λ h. refl, λ other h. cc)
      | inr room ↦
          rw (some, away, room)
            (
              (λ h. (refl, inr (ground arith)), λ h. refl),
              λ h. absurd (h refl),
              λ other h. is_local-added c hash other v room,
            )
    ]
  ]
]
