-- ===== src/RingBuffer/Inv.antt =====
-- The representation invariant of `RingBuffer`: slots, head and size agree with the capacity.
use labtether_linux.Base.{
  ℕ, zero, suc, ◌≤◌, ◌<◌, ◌≡◌, refl, List, [], ◌∷◌, arith, length, set, length-set,
  length-replicate, ◌%◌, ◌+◌, ◌∙◌,
}
use labtether_linux.Base.Int.{ℤ, pos, negsuc}
use labtether_linux.RingBuffer.{
  RingBuffer, Op, pushes, drains, capacity_for, new, push, drain, drain_loop, commit, step, steps,
}

pub record IsValid {ℓ} {A : Type ℓ} (rb : RingBuffer A) : Type 0 where
  pub slots : length rb.buf ≡ rb.cap
  pub head_in : rb.head < rb.cap
  pub size_in : rb.size ≤ rb.cap

module _ {ℓ} {A : Type ℓ} (zero_value : A) where
  pub new-IsValid : (capacity : ℤ) → IsValid (new zero_value capacity)
  unfolding new capacity_for
  new-IsValid (pos zero) = record {
    slots = length-replicate 60 zero_value;
    head_in = omega arith;
    size_in = omega arith;
  }
  new-IsValid (pos (suc n)) = record {
    slots = length-replicate (suc n) zero_value;
    head_in = omega arith;
    size_in = omega arith;
  }
  new-IsValid (negsuc n) = record {
    slots = length-replicate 60 zero_value;
    head_in = omega arith;
    size_in = omega arith;
  }

  pub push-IsValid : (item : A) (rb : RingBuffer A) → IsValid rb → IsValid (push zero_value item rb)
  unfolding push
  push-IsValid item rb v = ground (arith, length-set rb.buf ((rb.head + rb.size) % rb.cap) item)

  pub length-drain_loop :
      (cap head : ℕ) (buf : List A) (i n : ℕ)
      → length (drain_loop zero_value cap head buf i n).1 ≡ length buf
  unfolding drain_loop
  length-drain_loop cap head buf i zero = refl
  length-drain_loop cap head buf i (suc n) =
      length-drain_loop cap head (set buf ((head + i) % cap) zero_value) (suc i) n
      ∙ length-set buf ((head + i) % cap) zero_value

  pub drain-IsValid : (rb : RingBuffer A) → IsValid rb → IsValid (drain zero_value rb).1
  unfolding drain
  drain-IsValid rb v = ground (arith, length-drain_loop rb.cap rb.head rb.buf 0 rb.size)

  pub commit-IsValid :
      (version : ℕ) (rb : RingBuffer A) → IsValid rb → IsValid (commit zero_value version rb)
  unfolding commit
  commit-IsValid version rb v = ground (arith, length-set rb.buf rb.head zero_value)

  pub step-IsValid :
      (o : Op zero_value) (rb : RingBuffer A) → IsValid rb → IsValid (step zero_value rb o)
  unfolding step
  step-IsValid (pushes x) rb v = push-IsValid x rb v
  step-IsValid drains rb v = drain-IsValid rb v

  pub steps-IsValid :
      (os : List (Op zero_value)) (rb : RingBuffer A)
      → IsValid rb
      → IsValid (steps zero_value rb os)
  unfolding steps
  steps-IsValid [] rb v = v
  steps-IsValid (o ∷ os) rb v = steps-IsValid os (step zero_value rb o) (step-IsValid o rb v)
