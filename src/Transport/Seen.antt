-- ===== src/Transport/Seen.antt =====
-- The cache of seen packets (components/rns_transport_core/rns_transport_core.c).
use meshpay_v.Base.{
  add_one, ltb→lt, take-set_end, any-append, ltb, Bool-cases, inl, inr, ◌||◌, ◌∙◌, any-set, zero, ℕ,
  suc, ◌+◌, ◌%◌, ◌<◌, ◌≤◌, ◌≡◌, refl, true, List, [], ◌∷◌, Bytes, arith, length, take, any, get_or,
  get_or-set, get_or-set_ne, length-set, constant_equal, constant_equal_iff,
}
use meshpay_v.Transport.{Core, cache_size, init, duplicate_seen, duplicate_remember}

-- The cache is full or has been filled up to the next place.
pub record IsCache (c : Core) : Type 0 where
  pub sized : length c.duplicate_hashes ≡ cache_size
  pub next : c.duplicate_next < cache_size
  pub filled : c.duplicate_next ≤ c.duplicate_count
  pub bounded : c.duplicate_count ≤ cache_size
  pub whole : c.duplicate_count < cache_size → c.duplicate_next ≡ c.duplicate_count

pub init-IsCache : IsCache init
init-IsCache = record {
  sized = refl;
  next = omega arith;
  filled = omega arith;
  bounded = omega arith;
  whole = λ h. refl;
}

pub duplicate_remember-IsCache :
    (c : Core) (hash : Bytes) → IsCache c → IsCache (duplicate_remember c hash)
unfolding duplicate_remember
duplicate_remember-IsCache c hash v = record {
  sized = omega (arith, v.sized, length-set c.duplicate_hashes c.duplicate_next hash);
  next = omega arith;
  filled = ground (arith, v.next, v.filled, v.bounded, v.whole);
  bounded = ground (arith, v.bounded);
  whole = ground (arith, v.next, v.bounded, v.whole);
}

-- The cache after the packets with these hashes, the first one first.
abbrev pub remember_all : Core → List Bytes → Core
remember_all c [] = c
remember_all c (hash ∷ hashes) = remember_all (duplicate_remember c hash) hashes

any-get_or :
    (hash : Bytes) (xs : List Bytes) (n i : ℕ)
    → i < n
    → n ≤ length xs
    → get_or xs i [] ≡ hash
    → any (λ h. constant_equal h hash) (take n xs) ≡ true
any-get_or hash [] n i l b e = absurd (omega arith)
any-get_or hash (x ∷ xs) zero i l b e = absurd (omega arith)
any-get_or hash (x ∷ xs) (suc n) zero l b e = let q = (constant_equal_iff x hash).1 e in rw q refl
any-get_or hash (x ∷ xs) (suc n) (suc i) l b e =
    ground (arith, any-get_or hash xs n i (omega arith) (omega arith) e)

-- The hash stands at place `p`, and the next write goes `j` places further round the ring.
pub record IsHeld (c : Core) (hash : Bytes) (p j : ℕ) : Type 0 where
  pub here : get_or c.duplicate_hashes p [] ≡ hash
  pub inside : p < c.duplicate_count
  pub apart : 1 ≤ j
  pub ahead : c.duplicate_next ≡ (p + j) % cache_size

pub IsHeld-next :
    (c : Core) (hash other : Bytes) (p j : ℕ)
    → IsCache c
    → j < cache_size
    → IsHeld c hash p j
    → IsHeld (duplicate_remember c other) hash p (suc j)
unfolding duplicate_remember
IsHeld-next c hash other p j v l k = record {
  here =
      get_or-set_ne c.duplicate_hashes c.duplicate_next p other []
        (λ e. omega (arith, e, k.ahead, k.apart, k.inside, v.bounded))
      ∙ k.here;
  inside = ground (arith, k.inside);
  apart = omega arith;
  ahead = omega (arith, k.ahead);
}

pub seen_after :
    (c : Core) (hash : Bytes) (p j : ℕ) (hashes : List Bytes)
    → IsCache c
    → IsHeld c hash p j
    → j + length hashes ≤ cache_size
    → duplicate_seen (remember_all c hashes) hash ≡ true
unfolding duplicate_seen
seen_after c hash p j [] v k l =
    any-get_or hash c.duplicate_hashes c.duplicate_count p k.inside
      (omega (arith, v.bounded, v.sized)) k.here
seen_after c hash p j (other ∷ hashes) v k l =
    seen_after (duplicate_remember c other) hash p (suc j) hashes
      (duplicate_remember-IsCache c other v) (IsHeld-next c hash other p j v (omega arith) k)
      (omega arith)

pub remember-IsHeld :
    (c : Core) (hash : Bytes)
    → IsCache c
    → IsHeld (duplicate_remember c hash) hash c.duplicate_next 1
unfolding duplicate_remember
remember-IsHeld c hash v = record {
  here = get_or-set c.duplicate_hashes c.duplicate_next hash [] (omega (arith, v.sized, v.next));
  inside = ground (arith, v.next, v.filled);
  apart = omega arith;
  ahead = refl;
}

-- In a well-formed cache a packet that was remembered counts as a duplicate until 48 others have
-- been remembered after it.
pub duplicate_seen-remember :
    (c : Core) (hash : Bytes) (hashes : List Bytes)
    → IsCache c
    → length hashes < cache_size
    → duplicate_seen (remember_all (duplicate_remember c hash) hashes) hash ≡ true
duplicate_seen-remember c hash hashes v l =
    seen_after (duplicate_remember c hash) hash c.duplicate_next 1 hashes
      (duplicate_remember-IsCache c hash v) (remember-IsHeld c hash v) (omega arith)

seen_before :
    (c : Core) (hash other : Bytes)
    → IsCache c
    → duplicate_seen (duplicate_remember c other) hash ≡ true
    → (constant_equal other hash || duplicate_seen c hash) ≡ true
unfolding duplicate_seen duplicate_remember
seen_before c hash other v h = elim (Bool-cases (ltb c.duplicate_count cache_size)) [
  | inl room ↦
      let w = v.whole (ltb→lt c.duplicate_count cache_size room) in
      let g =
        rw
          (
            room,
            w,
            add_one,
            take-set_end c.duplicate_hashes c.duplicate_count other
                (omega (arith, v.sized, w, v.next)),
            any-append (λ b. constant_equal b hash) (take c.duplicate_count c.duplicate_hashes)
                (other ∷ []),
          )
          at h in
      ground arith
  | inr full ↦
      let g = rw full at h in
      any-set (λ b. constant_equal b hash) c.duplicate_hashes c.duplicate_count c.duplicate_next
        other g
]

seen_all :
    (c : Core) (hash : Bytes) (hashes : List Bytes)
    → IsCache c
    → duplicate_seen (remember_all c hashes) hash ≡ true
    → (any (λ other. constant_equal other hash) hashes || duplicate_seen c hash) ≡ true
seen_all c hash [] v h = h
seen_all c hash (other ∷ hashes) v h =
    let rest =
      seen_all (duplicate_remember c other) hash hashes (duplicate_remember-IsCache c other v) h in
    let here = seen_before c hash other v in ground arith

-- A packet counts as a duplicate only if it is one of those remembered since the start.
duplicate_seen-init :
    (hash : Bytes) (hashes : List Bytes)
    → duplicate_seen (remember_all init hashes) hash ≡ true
    → any (λ other. constant_equal other hash) hashes ≡ true
unfolding duplicate_seen
duplicate_seen-init hash hashes h = ground (arith, seen_all init hash hashes init-IsCache h)
