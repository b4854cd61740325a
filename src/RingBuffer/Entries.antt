-- ===== src/RingBuffer/Entries.antt =====
-- The queue that the slots of internal/agentcore/ring_buffer.go stand for, oldest first, and what
-- a write to a slot does to it.
use native.Mathlib.Nat.{mod-add-mod, mod-eq_of_lt, mod-eq-sub-mod}
use native.Mathlib.Decide.{dec_lt}
use labtether_linux.Base.{
  ℕ, zero, suc, ◌+◌, ◌-◌, ◌≤◌, ◌<◌, ◌%◌, ◌≡◌, ◌≢◌, refl, ap, ap₂, sym, ◌∙◌, List, [], ◌∷◌, ◌++◌,
  arith, length, get_or, set, get_or-set_self, get_or-set_ne, drop, ◌⊎◌, inl, inr,
}
use labtether_linux.RingBuffer.{drain_loop}

-- Where slot `i` after the head lies, without `%`.
pub slot_cases :
    (cap head i : ℕ)
    → head < cap
    → i ≤ cap
    → ((head + i < cap) × ((head + i) % cap ≡ head + i))
      ⊎ ((cap ≤ head + i) × ((head + i) % cap ≡ head + i - cap))
slot_cases cap head i h k = elim (dec_lt (head + i) cap) [
  | yes p ↦ inl (p, mod-eq_of_lt p)
  | no p ↦ inr (
    omega arith,
    mod-eq-sub-mod {n = head + i} {m = cap} (omega arith)
        ∙ mod-eq_of_lt {n = head + i - cap} {m = cap} (omega arith),
  )
]

pub slot-lt : (cap head i : ℕ) → head < cap → i ≤ cap → (head + i) % cap < cap
slot-lt cap head i h k = omega (arith, slot_cases cap head i h k)

slot_ne : (cap head i j : ℕ) → head < cap → i < j → j < cap → (head + j) % cap ≢ (head + i) % cap
slot_ne cap head i j h ij k =
    omega (arith, slot_cases cap head i h (omega arith), slot_cases cap head j h (omega arith))

slot-next : (cap head i : ℕ) → ((head + 1) % cap + i) % cap ≡ (head + suc i) % cap
slot-next cap head i = rw mod-add-mod (ap (λ k. k % cap) (omega arith))

module _ {ℓ} {A : Type ℓ} (zero_value : A) (cap : ℕ) where
  -- The `n` entries from slot `i` after `head` on.
  abbrev pub entries : List A → ℕ → ℕ → ℕ → List A
  entries buf head i zero = []
  entries buf head i (suc n) = get_or buf ((head + i) % cap) zero_value ∷ entries buf head (suc i) n

  pub length-entries : (buf : List A) (head i n : ℕ) → length (entries buf head i n) ≡ n
  length-entries buf head i zero = refl
  length-entries buf head i (suc n) = ap suc (length-entries buf head (suc i) n)

  pub entries-next :
      (buf : List A) (head i n : ℕ)
      → entries buf ((head + 1) % cap) i n ≡ entries buf head (suc i) n
  entries-next buf head i zero = refl
  entries-next buf head i (suc n) =
      ap₂ ◌∷◌ (ap (λ k. get_or buf k zero_value) (slot-next cap head i))
        (entries-next buf head (suc i) n)

  -- A write to slot `j` after the head is not seen by entries that stop before it or start after it.
  pub entries-set_before :
      (buf : List A) (head i n j : ℕ) (x : A)
      → head < cap
      → i + n ≤ j
      → j < cap
      → entries (set buf ((head + j) % cap) x) head i n ≡ entries buf head i n
  entries-set_before buf head i zero j x h k l = refl
  entries-set_before buf head i (suc n) j x h k l =
      ap₂ ◌∷◌ (get_or-set_ne buf _ _ x zero_value (slot_ne cap head i j h (omega arith) l))
        (entries-set_before buf head (suc i) n j x h (omega arith) l)

  pub entries-set_after :
      (buf : List A) (head i n j : ℕ) (x : A)
      → head < cap
      → j < i
      → i + n ≤ cap
      → entries (set buf ((head + j) % cap) x) head i n ≡ entries buf head i n
  entries-set_after buf head i zero j x h k l = refl
  entries-set_after buf head i (suc n) j x h k l =
      ap₂ ◌∷◌
        (get_or-set_ne buf _ _ x zero_value (λ e. slot_ne cap head j i h k (omega arith) (sym e)))
        (entries-set_after buf head (suc i) n j x h (omega arith) (omega arith))

  entries-append :
      (buf : List A) (head i n : ℕ)
      → entries buf head i (suc n)
        ≡ entries buf head i n ++ (get_or buf ((head + (i + n)) % cap) zero_value ∷ [])
  entries-append buf head i zero =
      ap (λ k. get_or buf ((head + k) % cap) zero_value ∷ []) (omega arith)
  entries-append buf head i (suc n) =
      ap (λ r. get_or buf ((head + i) % cap) zero_value ∷ r)
        (entries-append buf head (suc i) n
          ∙ ap (λ k. entries buf head (suc i) n ++ (get_or buf ((head + k) % cap) zero_value ∷ []))
              (omega arith))

  -- A write just past the entries extends them.
  pub entries-snoc :
      (buf : List A) (head n : ℕ) (x : A)
      → length buf ≡ cap
      → head < cap
      → n < cap
      → entries (set buf ((head + n) % cap) x) head 0 (suc n) ≡ entries buf head 0 n ++ (x ∷ [])
  entries-snoc buf head n x s h k =
      entries-append (set buf ((head + n) % cap) x) head 0 n
      ∙ ap₂ (λ a b. a ++ (b ∷ [])) (entries-set_before buf head 0 n n x h (omega arith) k)
          (ap (λ j. get_or (set buf ((head + n) % cap) x) ((head + j) % cap) zero_value)
              (omega arith)
            ∙ get_or-set_self buf _ x zero_value (omega (arith, slot-lt cap head n h)))

  pub drain_loop-entries :
      (head : ℕ) (buf : List A) (i n : ℕ)
      → head < cap
      → i + n ≤ cap
      → (drain_loop zero_value cap head buf i n).0 ≡ entries buf head i n
  unfolding drain_loop
  drain_loop-entries head buf i zero h k = refl
  drain_loop-entries head buf i (suc n) h k =
      ap (λ r. get_or buf ((head + i) % cap) zero_value ∷ r)
        (drain_loop-entries head (set buf ((head + i) % cap) zero_value) (suc i) n h (omega arith)
          ∙ entries-set_after buf head (suc i) n i zero_value h (omega arith) (omega arith))

  -- A write over the oldest entry of a full buffer drops it and adds the new one at the end.
  pub entries-overwrite :
      (buf : List A) (head c : ℕ) (x : A)
      → length buf ≡ cap
      → head < cap
      → cap ≡ suc c
      → entries (set buf ((head + cap) % cap) x) head 1 (suc c)
        ≡ drop 1 (entries buf head 0 (suc c)) ++ (x ∷ [])
  entries-overwrite buf head c x s h e =
      entries-append (set buf ((head + cap) % cap) x) head 1 c
      ∙ ap₂ (λ a b. a ++ (b ∷ []))
          (ap (λ k. entries (set buf k x) head 1 c) again
            ∙ entries-set_after buf head 1 c 0 x h (omega arith) (omega arith))
          (ap (λ k. get_or (set buf ((head + cap) % cap) x) ((head + k) % cap) zero_value)
              (omega arith)
            ∙ get_or-set_self buf _ x zero_value (omega (arith, slot-lt cap head cap h)))
    where
      again : (head + cap) % cap ≡ (head + 0) % cap
      again = omega (arith, slot_cases cap head cap h, slot_cases cap head 0 h)
