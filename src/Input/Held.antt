-- ===== src/Input/Held.antt =====
-- The map of held inputs in internal/agentcore/remoteaccess/webrtc_input_lifecycle.go.
use labtether_linux.Base.{
  suc, ◌≤◌, ◌≡◌, refl, ap, sym, true, false, ◌&&◌, ◌||◌, not, List, [], ◌∷◌, length, All, arith,
  Bool-cases, inl, inr,
}
use labtether_linux.Base.Text.{Text, text_eq, text_eq_iff}
use labtether_linux.Input.{InputEvent, has, hold, delete_key}

same_text : (i k j : Text) → text_eq i k ≡ true → text_eq i j ≡ text_eq k j
same_text i k j e = ap (λ t. text_eq t j) ((text_eq_iff i k).0 e)

pub has-hold :
    (j k : Text) (e : InputEvent) (held : List (Text × InputEvent))
    → has j (hold k e held) ≡ (text_eq k j || has j held)
unfolding hold
has-hold j k e [] = refl
has-hold j k e ((i, d) ∷ held) = elim (Bool-cases (text_eq i k)) [
  | inl same ↦ ground (arith, same, same_text i k j same)
  | inr other ↦ ground (arith, other, has-hold j k e held)
]

pub has-delete_key :
    (j k : Text) (held : List (Text × InputEvent))
    → has j (delete_key k held) ≡ (not (text_eq k j) && has j held)
unfolding delete_key
has-delete_key j k [] = ground arith
has-delete_key j k ((i, d) ∷ held) = elim (Bool-cases (text_eq i k)) [
  | inl same ↦ ground (arith, same, same_text i k j same, has-delete_key j k held)
  | inr other ↦ elim (Bool-cases (text_eq i j)) [
    | inl ij ↦ ground (arith, other, ij, has-delete_key j k held, differ ij other)
    | inr ij ↦ ground (arith, other, ij, has-delete_key j k held)
  ]
]
  where
    differ : text_eq i j ≡ true → text_eq i k ≡ false → text_eq k j ≡ false
    differ ij ik = elim (Bool-cases (text_eq k j)) [
      | inl kj ↦ ground (arith, ik, same_text i j k ij, swap kj)
      | inr kj ↦ kj
    ]
      where
        swap : text_eq k j ≡ true → text_eq j k ≡ true
        swap kj = (text_eq_iff j k).1 (sym ((text_eq_iff k j).0 kj))

pub length-delete_key :
    (k : Text) (held : List (Text × InputEvent)) → length (delete_key k held) ≤ length held
unfolding delete_key
length-delete_key k [] = omega arith
length-delete_key k ((i, d) ∷ held) = ground (arith, length-delete_key k held)

pub length-hold :
    (k : Text) (e : InputEvent) (held : List (Text × InputEvent))
    → length (hold k e held) ≤ suc (length held)
unfolding hold
length-hold k e [] = omega arith
length-hold k e ((i, d) ∷ held) = ground (arith, length-hold k e held)

pub length-hold_again :
    (k : Text) (e : InputEvent) (held : List (Text × InputEvent))
    → has k held ≡ true
    → length (hold k e held) ≡ length held
unfolding hold
length-hold_again k e [] h = cc
length-hold_again k e ((i, d) ∷ held) h = elim (Bool-cases (text_eq i k)) [
  | inl same ↦ ground (arith, same)
  | inr other ↦ ground (arith, other, length-hold_again k e held (ground (arith, other, h)))
]

module _ {κ} (P : Text × InputEvent → Type κ) where
  pub All-hold :
      (k : Text) (e : InputEvent) (held : List (Text × InputEvent))
      → P (k, e)
      → All P held
      → All P (hold k e held)
  unfolding hold
  All-hold k e [] p a = (p, tt)
  All-hold k e ((i, d) ∷ held) p a = elim (Bool-cases (text_eq i k)) [
    | inl same ↦ rw same (p, a.1)
    | inr other ↦ rw other (a.0, All-hold k e held p a.1)
  ]

  pub All-delete_key :
      (k : Text) (held : List (Text × InputEvent)) → All P held → All P (delete_key k held)
  unfolding delete_key
  All-delete_key k [] a = tt
  All-delete_key k ((i, d) ∷ held) a = elim (Bool-cases (text_eq i k)) [
    | inl same ↦ rw same (All-delete_key k held a.1)
    | inr other ↦ rw other (a.0, All-delete_key k held a.1)
  ]
