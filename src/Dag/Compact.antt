-- ===== src/Dag/Compact.antt =====
-- The compacting loops of `meshpay_dag_purge_foreign` and `meshpay_dag_adopt_checkpoint`
-- (components/dag/dag.c) against the filter that they stand for.
use meshpay_v.Base.{
  ℕ, zero, suc, ◌+◌, ◌-◌, ◌≤◌, ◌<◌, ◌≡◌, refl, sym, ap, ap₂, ◌∙◌, inl, inr, Bool, true, false, List,
  [], ◌∷◌, ◌++◌, append_assoc, append-nil, arith, ◌==◌, ==_iff, if◌then◌else◌, Bool-cases, length,
  get_or, set, take, drop, replicate, keep, length-set, length-take, take-set_end, take-suc,
  drop-set_before, drop-cons, drop-drop, take-append_self, length-append, length-replicate,
  length-drop, take-append-drop, add_suc,
}
use meshpay_v.Tx.{Tx, cleared}
use meshpay_v.Dag.{Dag, capacity, window, move, compact_loop, clear_slots, compact}

-- What a run of the loop over `transactions[i .. i + rounds)` leaves, started with `kept` entries.
record Compacted (stays : Tx → Bool) (rounds i kept : ℕ) (slots : List Tx) (out : List Tx × ℕ)
    : Type 0 where
  size : length out.0 ≡ length slots
  in_range : out.1 ≤ kept + rounds
  front : take out.1 out.0 ≡ take kept slots ++ keep stays (take rounds (drop i slots))
  back : drop (i + rounds) out.0 ≡ drop (i + rounds) slots

-- The slot at `kept` takes the entry at `i`, and nothing beyond `i` changes.
record Moved (i kept : ℕ) (slots out : List Tx) : Type 0 where
  size : length out ≡ length slots
  front : take (suc kept) out ≡ take kept slots ++ get_or slots i cleared ∷ []
  back : drop (suc i) out ≡ drop (suc i) slots

move-Moved :
    (i kept : ℕ) (slots : List Tx)
    → kept ≤ i
    → i < length slots
    → Moved i kept slots (move i kept slots)
move-Moved i kept slots h l = elim (Bool-cases (kept == i)) [
  | inl e ↦
      let same : kept ≡ i = (==_iff kept i).0 e in
      rw e (record { size = refl; front = rw same (take-suc slots i cleared l); back = refl })
  | inr ne ↦ rw ne (record {
    size = length-set slots kept (get_or slots i cleared);
    front = take-set_end slots kept (get_or slots i cleared) (omega arith);
    back = drop-set_before slots kept (suc i) (get_or slots i cleared) (omega arith);
  })
]

-- What the filter makes of the entry at `i`.
keep_round :
    (stays : Tx → Bool) (rounds i : ℕ) (slots : List Tx)
    → i < length slots
    → let rest = keep stays (take rounds (drop (suc i) slots)) in
      keep stays (take (suc rounds) (drop i slots))
      ≡ (if stays (get_or slots i cleared) then get_or slots i cleared ∷ rest else rest)
keep_round stays rounds i slots l = rw (drop-cons slots i cleared l)

drop_further :
    (n i : ℕ) (xs ys : List Tx) → drop i xs ≡ drop i ys → drop (i + n) xs ≡ drop (i + n) ys
drop_further n i xs ys e = sym (drop-drop n i xs) ∙ ap (drop n) e ∙ drop-drop n i ys

keep_here :
    (stays : Tx → Bool) (rounds i kept : ℕ) (slots mid : List Tx) (out : List Tx × ℕ)
    → i < length slots
    → stays (get_or slots i cleared) ≡ true
    → Moved i kept slots mid
    → Compacted stays rounds (suc i) (suc kept) mid out
    → Compacted stays (suc rounds) i kept slots out
keep_here stays rounds i kept slots mid out l here m c = record {
  size = c.size ∙ m.size;
  in_range = omega arith;
  front =
      c.front
      ∙ rw (m.front, m.back, keep_round stays rounds i slots l, here)
          (append_assoc (take kept slots) _ _);
  back = rw add_suc (c.back ∙ drop_further rounds (suc i) mid slots m.back);
}

skip_here :
    (stays : Tx → Bool) (rounds i kept : ℕ) (slots : List Tx) (out : List Tx × ℕ)
    → i < length slots
    → stays (get_or slots i cleared) ≡ false
    → Compacted stays rounds (suc i) kept slots out
    → Compacted stays (suc rounds) i kept slots out
skip_here stays rounds i kept slots out l gone c = record {
  size = c.size;
  in_range = omega arith;
  front = c.front ∙ rw (keep_round stays rounds i slots l, gone);
  back = rw add_suc c.back;
}

length-move : (i kept : ℕ) (slots : List Tx) → length (move i kept slots) ≡ length slots
length-move i kept slots = ground (arith, length-set slots kept (get_or slots i cleared))

compact_loop-Compacted :
    (stays : Tx → Bool) (rounds i kept : ℕ) (slots : List Tx)
    → kept ≤ i
    → i + rounds ≤ length slots
    → Compacted stays rounds i kept slots (compact_loop stays rounds i kept slots)
unfolding compact_loop
compact_loop-Compacted stays zero i kept slots h l = record {
  size = refl;
  in_range = omega arith;
  front = sym (append-nil (take kept slots));
  back = refl;
}
compact_loop-Compacted stays (suc rounds) i kept slots h l =
    elim (Bool-cases (stays (get_or slots i cleared))) [
      | inl here ↦ rw here (
          keep_here stays rounds i kept slots (move i kept slots) _ (omega arith) here
            (move-Moved i kept slots h (omega arith))
            (compact_loop-Compacted stays rounds (suc i) (suc kept) (move i kept slots)
              (omega arith) (omega (arith, length-move i kept slots))))
      | inr gone ↦ rw gone (
          skip_here stays rounds i kept slots _ (omega arith) gone
            (compact_loop-Compacted stays rounds (suc i) kept slots (omega arith) (omega arith)))
    ]

-- The zeroing writes over `n` slots from `k` on and over nothing else.
clear_slots_lem :
    (n k : ℕ) (slots : List Tx)
    → k + n ≤ length slots
    → clear_slots n k slots ≡ take k slots ++ (replicate n cleared ++ drop (k + n) slots)
unfolding clear_slots
clear_slots_lem zero k slots h =
    let e : k + 0 ≡ k = omega arith in rw e (sym (take-append-drop k slots))
clear_slots_lem (suc n) k slots h =
    clear_slots_lem n (suc k) (set slots k cleared) (omega (arith, length-set slots k cleared))
    ∙ rw (take-set_end slots k cleared (omega arith), append_assoc, add_suc)
        (ap (λ rest. take k slots ++ cleared ∷ (replicate n cleared ++ rest))
          (drop-set_before slots k (suc k + n) cleared (omega arith)))

-- The compaction in place is the stable filter: the survivors in their order, then as many zeroed
-- slots as entries went, then what stood behind the window.
pub record IsFiltered (stays : Tx → Bool) (d d' : Dag) (purged : ℕ) : Type 0 where
  pub slots : d'.slots ≡ keep stays (window d) ++ (replicate purged cleared ++ drop d.count d.slots)
  pub count : d'.count ≡ length (keep stays (window d))
  pub total : d'.count + purged ≡ d.count

finish_IsFiltered :
    (stays : Tx → Bool) (d : Dag) (s : List Tx) (kept : ℕ)
    → d.count ≤ capacity d
    → Compacted stays d.count 0 0 d.slots (s, kept)
    → IsFiltered stays d
        (record d { slots = clear_slots (d.count - kept) kept s; count = kept })
        (d.count - kept)
finish_IsFiltered stays d s kept h c =
    let all : kept + (d.count - kept) ≡ d.count = omega arith in
    let none_before : 0 + d.count ≡ d.count = omega arith in
    record {
      slots =
          clear_slots_lem (d.count - kept) kept s (omega arith)
          ∙ ap₂ ◌++◌ c.front
              (ap (◌++◌ (replicate (d.count - kept) cleared)) (rw all (rw none_before at c.back)));
      count = omega (arith, ap length c.front, length-take kept s);
      total = omega arith;
    }

pub compact-IsFiltered :
    (stays : Tx → Bool) (d : Dag)
    → d.count ≤ capacity d
    → IsFiltered stays d (compact stays d).0 (compact stays d).1
unfolding compact
compact-IsFiltered stays d h =
    finish_IsFiltered stays d _ _ h
      (compact_loop-Compacted stays d.count 0 0 d.slots (omega arith) (omega arith))

-- So the window afterwards is the filtered window.
pub window-IsFiltered :
    {stays : Tx → Bool} {d d' : Dag} {purged : ℕ}
    → IsFiltered stays d d' purged
    → window d' ≡ keep stays (window d)
window-IsFiltered {stays} {d} f = rw (f.slots, f.count) (take-append_self (keep stays (window d)) _)

pub capacity-IsFiltered :
    {stays : Tx → Bool} {d d' : Dag} {purged : ℕ}
    → d.count ≤ capacity d
    → IsFiltered stays d d' purged
    → capacity d' ≡ capacity d
capacity-IsFiltered {stays} {d} {purged = purged} h f = rw f.slots (
    omega (
      arith,
      f.count,
      f.total,
      length-append (keep stays (window d)) (replicate purged cleared ++ drop d.count d.slots),
      length-append (replicate purged cleared) (drop d.count d.slots),
      length-replicate purged cleared,
      length-drop d.count d.slots,
    ))
