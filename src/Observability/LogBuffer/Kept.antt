-- ===== src/Observability/LogBuffer/Kept.antt =====
-- The buffer holds the latest records, and a snapshot has at most the number of entries asked for.
use mathlib.Core.List.{append-nil, append_assoc}
use bacnet_sim_gateway.Common.{
  ℕ, zero, suc, ◌+◌, ◌-◌, ◌≤◌, String, ℤ, Bool, true, ◌&&◌, Option, none, some, List, [], ◌∷◌, ◌++◌,
  map, length, drop, length-append, length-drop, ◌≡◌, refl, sym, ap, ◌∙◌, arith, All, Bool-cases,
  inl, inr,
}
use bacnet_sim_gateway.Observability.LogBuffer.Defs.{
  LogEntry, LogRecord, RingBuffer, last, init_buffer, entry_of, emit, emit_all, has_level, is_since,
  select, slice_from_end, snapshot,
}

module _ {ℓ} {A : Type ℓ} where
  drop-append_le : (n : ℕ) (xs ys : List A) → n ≤ length xs → drop n (xs ++ ys) ≡ drop n xs ++ ys
  drop-append_le zero xs ys h = refl
  drop-append_le (suc n) [] ys h = absurd (omega arith)
  drop-append_le (suc n) (x ∷ xs) ys h = drop-append_le n xs ys (omega arith)

  drop_nil : (n : ℕ) → drop {A = A} n [] ≡ []
  drop_nil zero = refl
  drop_nil (suc n) = refl

  drop-drop : (m n : ℕ) (xs : List A) → drop m (drop n xs) ≡ drop (n + m) xs
  drop-drop m zero xs = ap (λ k. drop k xs) (omega arith)
  drop-drop m (suc n) [] = drop_nil m ∙ sym (drop_nil (suc n + m))
  drop-drop m (suc n) (x ∷ xs) =
      let shift : suc (n + m) ≡ suc n + m = omega arith in
      drop-drop m n xs ∙ ap (λ k. drop k (x ∷ xs)) shift

  All-drop {κ} : (P : A → Type κ) (n : ℕ) (xs : List A) → All P xs → All P (drop n xs)
  All-drop P zero xs h = h
  All-drop P (suc n) [] h = tt
  All-drop P (suc n) (x ∷ xs) h = All-drop P n xs h.1

  -- what is dropped early would be dropped later
  last-append_last : (n : ℕ) (xs ys : List A) → last n (last n xs ++ ys) ≡ last n (xs ++ ys)
  unfolding last
  last-append_last n xs ys =
      let k = length xs - n in
      let early : k ≤ length xs = omega arith in
      let whole = length-append xs ys in
      let rest = length-append (drop k xs) ys in
      let kept = length-drop k xs in
      let rejoin : drop k xs ++ ys ≡ drop k (xs ++ ys) = sym (drop-append_le k xs ys early) in
      let total : k + (length (drop k xs ++ ys) - n) ≡ length (xs ++ ys) - n = omega arith in
      ap (drop (length (drop k xs ++ ys) - n)) rejoin
      ∙ drop-drop (length (drop k xs ++ ys) - n) k (xs ++ ys)
      ∙ ap (λ j. drop j (xs ++ ys)) total

module _ {F : Type 0} where
  -- from a buffer that is within its capacity
  emit_all-records :
      (rs : List (LogRecord F)) (b : RingBuffer F)
      → last b.capacity b.records ≡ b.records
      → (emit_all rs b).records ≡ last b.capacity (b.records ++ map entry_of rs)
  unfolding emit_all emit
  emit_all-records [] b full = rw (append-nil b.records) (sym full)
  emit_all-records (r ∷ rs) b full =
      let e = entry_of r in
      let now = b.records ++ e ∷ [] in
      let idem : last b.capacity (last b.capacity now) ≡ last b.capacity now =
        ap (last b.capacity) (sym (append-nil (last b.capacity now)))
        ∙ last-append_last b.capacity now []
        ∙ ap (last b.capacity) (append-nil now) in
      emit_all-records rs (emit r b) idem
      ∙ last-append_last b.capacity now (map entry_of rs)
      ∙ ap (last b.capacity) (append_assoc b.records (e ∷ []) (map entry_of rs))

  -- After any number of records, the buffer holds the entries of the latest ones, as many as its
  -- capacity, in the order in which they were emitted.
  pub emit_all-last :
      (capacity : ℕ) (rs : List (LogRecord F))
      → (emit_all rs (init_buffer capacity)).records ≡ last capacity (map entry_of rs)
  unfolding init_buffer last
  emit_all-last capacity rs = emit_all-records rs (init_buffer capacity) (drop_nil (0 - capacity))

  module _ (le : F → F → Bool) where
    -- the entry passes the filters
    abbrev pub Passes : Option String → Option F → LogEntry F → Type 0
    Passes level since e = (has_level level e ≡ true) × (is_since le since e ≡ true)

    select-Passes :
        (level : Option String) (since : Option F) (items : List (LogEntry F))
        → All (Passes level since) (select le level since items)
    unfolding select
    select-Passes level since [] = tt
    select-Passes level since (e ∷ items) =
        let rest = select-Passes level since items in
        elim (Bool-cases (has_level level e && is_since le since e)) [
          | inl kept ↦ rw kept ((ground arith, ground arith), rest)
          | inr left ↦ rw left rest
        ]

    slice_from_end-Passes :
        (level : Option String) (since : Option F) (n : ℤ) (items : List (LogEntry F))
        → All (Passes level since) items
        → All (Passes level since) (slice_from_end n items)
    unfolding slice_from_end last
    slice_from_end-Passes level since (ℤ.pos zero) items h = h
    slice_from_end-Passes level since (ℤ.pos (suc n)) items h = All-drop _ _ items h
    slice_from_end-Passes level since (ℤ.negsuc n) items h = All-drop _ (suc n) items h

    -- Whatever the limit, each entry of a snapshot has the level that was asked for and is later than
    -- the time that was asked for.
    pub snapshot-Passes :
        (level : Option String) (since : Option F) (limit : Option ℤ) (b : RingBuffer F)
        → All (Passes level since) (snapshot le level since limit b)
    unfolding snapshot
    snapshot-Passes level since none b = select-Passes level since b.records
    snapshot-Passes level since (some n) b =
        slice_from_end-Passes level since n _ (select-Passes level since b.records)

    -- A snapshot with a limit of at least one has at most so many entries.
    pub snapshot-length :
        (level : Option String) (since : Option F) (n : ℕ) (b : RingBuffer F)
        → length (snapshot le level since (some (ℤ.pos (suc n))) b) ≤ suc n
    unfolding snapshot slice_from_end last
    snapshot-length level since n b = omega (
      arith,
      length-drop (length (select le level since b.records) - suc n)
          (select le level since b.records),
    )
