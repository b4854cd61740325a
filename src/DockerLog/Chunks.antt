-- ===== src/DockerLog/Chunks.antt =====
-- How the log arrives in chunks makes no difference: internal/agentcore/docker/log_decode.go.
use labtether_linux.Base.{
  ℕ, zero, suc, ◌+◌, ◌≤◌, ◌<◌, ◌≡◌, refl, sym, ap, ◌∙◌, Option, none, some, List, [], ◌∷◌, ◌++◌,
  ltb, ◌==◌, length, length-append, append-nil, append_assoc, arith, Bool-cases, inl, inr,
}
use labtether_linux.Base.Result.{Result, ok, err, ◌>>=◌}
use labtether_linux.DockerLog.{
  LineBuffer, Sink, LogError, cut_line, add_pending, send_line, after_piece, emit_loop, emit,
  emit_all, max_docker_log_line_bytes,
}

pub bind_assoc {ℓ κ ι} :
    {E : Type ι} {A : Type ℓ} {B : Type κ} {C : Type κ} (r : Result E A) (f : A → Result E B)
    (g : B → Result E C)
    → ((r >>= f) >>= g) ≡ (r >>= (λ x. f x >>= g))
bind_assoc (ok a) f g = refl
bind_assoc (err e) f g = refl

-- A line that goes on in the next chunk.
abbrev joined : List ℕ × Option (List ℕ) → List ℕ → List ℕ × Option (List ℕ)
joined (piece, some rest) more = (piece, some (rest ++ more))
joined (piece, none) more = (piece ++ (cut_line more).0, (cut_line more).1)

cut_line-append : (xs ys : List ℕ) → cut_line (xs ++ ys) ≡ joined (cut_line xs) ys
unfolding cut_line
cut_line-append [] ys = refl
cut_line-append (c ∷ cs) ys = elim (Bool-cases (c == 10)) [
  | inl end_ ↦ simp end_ refl
  | inr other ↦ simp other (ap (λ p. (c ∷ p.0, p.1)) (cut_line-append cs ys) ∙ go (cut_line cs))
]
  where
    go :
        (p : List ℕ × Option (List ℕ))
        → (c ∷ (joined p ys).0, (joined p ys).1) ≡ joined (c ∷ p.0, p.1) ys
    go (piece, none) = refl
    go (piece, some rest) = refl

-- Without a line end all of it is one piece.
pub cut_line_whole : (xs : List ℕ) → (cut_line xs).1 ≡ none → (cut_line xs).0 ≡ xs
unfolding cut_line
cut_line_whole [] h = refl
cut_line_whole (c ∷ cs) h = elim (Bool-cases (c == 10)) [
  | inl end_ ↦ ground (arith, end_, h)
  | inr other ↦ simp other (ap (λ l. c ∷ l) (cut_line_whole cs (simp other at h)))
]

pub length-cut_line : (xs rest : List ℕ) → (cut_line xs).1 ≡ some rest → length rest < length xs
unfolding cut_line
length-cut_line [] rest h = cc
length-cut_line (c ∷ cs) rest h = elim (Bool-cases (c == 10)) [
  | inl end_ ↦ ground (arith, end_, h)
  | inr other ↦ ground (arith, length-cut_line cs rest (simp other at h))
]

add_pending-append :
    (c : ℕ) (cs ys : List ℕ) (b : LineBuffer)
    → add_pending ((c ∷ cs) ++ ys) b ≡ (add_pending (c ∷ cs) b >>= add_pending ys)
unfolding add_pending
add_pending-append c cs ys b =
    elim (Bool-cases (ltb max_docker_log_line_bytes (length b.pending + suc (length cs)))) [
      | inl long ↦ ground (arith, long, length-append cs ys)
      | inr fits ↦ elim (Bool-cases (length b.pending == 0)) [
        | inl fresh ↦ ground (
          arith,
          fits,
          fresh,
          length-append cs ys,
          length-append b.pending (c ∷ cs),
          append_assoc b.pending (c ∷ cs) ys,
        )
        | inr old ↦ ground (
          arith,
          fits,
          old,
          length-append cs ys,
          length-append b.pending (c ∷ cs),
          append_assoc b.pending (c ∷ cs) ys,
        )
      ]
    ]

pub bind_cong {ℓ κ ι} :
    {E : Type ι} {A : Type ℓ} {B : Type κ} (r : Result E A) (f g : A → Result E B)
    → ((x : A) → f x ≡ g x)
    → (r >>= f) ≡ (r >>= g)
bind_cong (ok a) f g h = h a
bind_cong (err e) f g h = refl

bind_ok {ℓ ι} : {E : Type ι} {A : Type ℓ} (r : Result E A) → (r >>= (λ x. ok x)) ≡ r
bind_ok (ok a) = refl
bind_ok (err e) = refl

abbrev Next : Type 0
Next = List ℕ → LineBuffer → Result LogError LineBuffer

after_piece_cong :
    (send : Sink) (f g : Next) (o : Option (List ℕ)) (b : LineBuffer)
    → ((more : List ℕ) (b' : LineBuffer) → o ≡ some more → f more b' ≡ g more b')
    → after_piece send f o b ≡ after_piece send g o b
unfolding after_piece
after_piece_cong send f g none b h = refl
after_piece_cong send f g (some more) b h = bind_cong (send_line send b) _ _ (λ b'. h more b' refl)

emit_loop_nil : (send : Sink) (n : ℕ) (b : LineBuffer) → emit_loop send n [] b ≡ ok b
unfolding emit_loop
emit_loop_nil send zero b = refl
emit_loop_nil send (suc n) b = refl

-- More rounds than bytes change nothing.
emit_loop_enough :
    (send : Sink) (n m : ℕ) (xs : List ℕ) (b : LineBuffer)
    → length xs ≤ n
    → length xs ≤ m
    → emit_loop send n xs b ≡ emit_loop send m xs b
unfolding emit_loop
emit_loop_enough send n m [] b p q = emit_loop_nil send n b ∙ sym (emit_loop_nil send m b)
emit_loop_enough send zero m (c ∷ cs) b p q = ground (arith, p)
emit_loop_enough send (suc n) zero (c ∷ cs) b p q = ground (arith, q)
emit_loop_enough send (suc n) (suc m) (c ∷ cs) b p q =
    bind_cong (add_pending (cut_line (c ∷ cs)).0 b) _ _ (λ b'.
      after_piece_cong send _ _ (cut_line (c ∷ cs)).1 b' (λ more b'' e.
        emit_loop_enough send n m more b'' (omega (arith, p, length-cut_line (c ∷ cs) more e))
          (omega (arith, q, length-cut_line (c ∷ cs) more e))))

-- Two chunks, in enough rounds each.
emit_loop-append :
    (send : Sink) (n m k : ℕ) (xs ys : List ℕ) (b : LineBuffer)
    → length xs + length ys ≤ n
    → length xs ≤ m
    → length ys ≤ k
    → emit_loop send n (xs ++ ys) b ≡ (emit_loop send m xs b >>= emit_loop send k ys)
unfolding emit_loop after_piece
emit_loop-append send n m k xs [] b p q r =
    ap (λ l. emit_loop send n l b) (append-nil xs)
    ∙ emit_loop_enough send n m xs b (omega (arith, p)) q
    ∙ sym (
        bind_cong (emit_loop send m xs b) _ _ (emit_loop_nil send k)
        ∙ bind_ok (emit_loop send m xs b))
emit_loop-append send n m k [] (y ∷ ys) b p q r =
    emit_loop_enough send n k (y ∷ ys) b (omega (arith, p)) r
    ∙ ap (λ t. t >>= emit_loop send k (y ∷ ys)) (sym (emit_loop_nil send m b))
emit_loop-append send zero m k (c ∷ cs) (y ∷ ys) b p q r = ground (arith, p)
emit_loop-append send (suc n) zero k (c ∷ cs) (y ∷ ys) b p q r = ground (arith, q)
emit_loop-append send (suc n) (suc m) zero (c ∷ cs) (y ∷ ys) b p q r = ground (arith, r)
emit_loop-append send (suc n) (suc m) (suc k) (c ∷ cs) (y ∷ ys) b p q r =
    ap (λ t. add_pending t.0 b >>= after_piece send (emit_loop send n) t.1)
      (cut_line-append (c ∷ cs) (y ∷ ys))
    ∙ go (cut_line (c ∷ cs)).1 refl (λ rest b'. emit_loop-append send n m (suc k) rest (y ∷ ys) b')
  where
    first : List ℕ
    first = (cut_line (c ∷ cs)).0

    whole : (o : Option (List ℕ)) → (cut_line (c ∷ cs)).1 ≡ o → Type 0
    whole o e =
        (add_pending (joined (first, o) (y ∷ ys)).0 b
          >>= after_piece send (emit_loop send n) (joined (first, o) (y ∷ ys)).1)
        ≡ ((add_pending first b >>= after_piece send (emit_loop send m) o)
            >>= emit_loop send (suc k) (y ∷ ys))

    go :
        (o : Option (List ℕ))
        → (e : (cut_line (c ∷ cs)).1 ≡ o)
        → ((rest : List ℕ) (b' : LineBuffer)
            → length rest + length (y ∷ ys) ≤ n
            → length rest ≤ m
            → length (y ∷ ys) ≤ suc k
            → emit_loop send n (rest ++ (y ∷ ys)) b'
              ≡ (emit_loop send m rest b' >>= emit_loop send (suc k) (y ∷ ys)))
        → whole o e
    go none e ih =
        ap
          (λ f.
            add_pending (f ++ (cut_line (y ∷ ys)).0) b
            >>= after_piece send (emit_loop send n) (cut_line (y ∷ ys)).1)
          (cut_line_whole (c ∷ cs) e)
        ∙ ap (λ t. t >>= after_piece send (emit_loop send n) (cut_line (y ∷ ys)).1)
            (add_pending-append c cs (cut_line (y ∷ ys)).0 b)
        ∙ bind_assoc (add_pending (c ∷ cs) b) (add_pending (cut_line (y ∷ ys)).0)
            (after_piece send (emit_loop send n) (cut_line (y ∷ ys)).1)
        ∙ bind_cong (add_pending (c ∷ cs) b) _ _ (λ b₁.
          bind_cong (add_pending (cut_line (y ∷ ys)).0 b₁) _ _ (λ b₂.
            after_piece_cong send _ _ (cut_line (y ∷ ys)).1 b₂ (λ more b₃ i.
              emit_loop_enough send n k more b₃ (omega (arith, p, length-cut_line (y ∷ ys) more i))
                (omega (arith, r, length-cut_line (y ∷ ys) more i)))))
        ∙ sym (
            bind_assoc (add_pending (c ∷ cs) b) (after_piece send (emit_loop send m) none)
              (emit_loop send (suc k) (y ∷ ys)))
        ∙ ap
            (λ f.
              (add_pending f b >>= after_piece send (emit_loop send m) none)
              >>= emit_loop send (suc k) (y ∷ ys))
            (sym (cut_line_whole (c ∷ cs) e))
    go (some rest) e ih =
        bind_cong (add_pending first b) _ _ (λ b₁.
          bind_cong (send_line send b₁) _ _ (λ b₂.
            ih rest b₂ (omega (arith, p, length-cut_line (c ∷ cs) rest e))
              (omega (arith, q, length-cut_line (c ∷ cs) rest e)) r)
          ∙ sym (
              bind_assoc (send_line send b₁) (emit_loop send m rest)
                (emit_loop send (suc k) (y ∷ ys))))
        ∙ sym (
            bind_assoc (add_pending first b) (after_piece send (emit_loop send m) (some rest))
              (emit_loop send (suc k) (y ∷ ys)))

-- Two buffers at once.
pub emit-append :
    (send : Sink) (xs ys : List ℕ) (b : LineBuffer)
    → emit send (xs ++ ys) b ≡ (emit send xs b >>= emit send ys)
unfolding emit
emit-append send xs ys b =
    emit_loop-append send _ _ _ xs ys b (omega (arith, length-append xs ys)) (omega arith)
      (omega arith)

abbrev pub concat : List (List ℕ) → List ℕ
concat [] = []
concat (chunk ∷ chunks) = chunk ++ concat chunks

-- However the bytes of a stream are cut into buffers, the outcome is that of all of them at once: the same
-- lines are sent, the same line is pending with the same number, or the same error ends it.
pub emit_all-emit :
    (send : Sink) (chunks : List (List ℕ)) (b : LineBuffer)
    → emit_all send chunks b ≡ emit send (concat chunks) b
unfolding emit_all emit emit_loop
emit_all-emit send [] b = refl
emit_all-emit send (chunk ∷ chunks) b =
    bind_cong (emit send chunk b) _ _ (emit_all-emit send chunks)
    ∙ sym (emit-append send chunk (concat chunks) b)
