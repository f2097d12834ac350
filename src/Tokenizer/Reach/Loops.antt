-- ===== src/Tokenizer/Reach/Loops.antt =====
-- What it is for a loop of src/tokenizer.rs to come to its end, without counting rounds.
use rjsonparser.Prelude.{ℕ, zero, suc, ◌<◌, ◌≡◌, arith, ◌∙◌, sym}
use rjsonparser.Error.{Result}
use rjsonparser.Tokenizer.Machine.{Machine, M}

-- A loop by its body, where `next` goes round again. From a machine the loop comes to its end with a result where
-- the body needs nothing of `next` but what it does at machines from which the loop comes to its end. From a
-- machine that it comes back to, or goes on from for ever, the loop has no end.
pub data Halts {H A : Type 0} (body : M H A → M H A)
    : Machine H → Result A × Machine H → Type 1 where
  round :
      {m : Machine H} {r : Result A × Machine H} (next : M H A) (Further : Machine H → Type 0)
      → ((x : Machine H) → Further x → Halts body x (next x))
      → ((f : M H A) → ((x : Machine H) → Further x → f x ≡ next x) → body f m ≡ r)
      → Halts body m r

-- A loop by fuel comes to its end where a measure falls from round to round, and there is fuel for it.
module _ {H A : Type 0} (body : M H A → M H A) (loop : ℕ → M H A)
    (unroll : (fuel : ℕ) (m : Machine H) → loop (suc fuel) m ≡ body (loop fuel) m)
    (Good : Machine H → Type 0) (left : Machine H → ℕ)
    (falls : (f g : M H A) (m : Machine H)
      → Good m
      → ((x : Machine H) → Good x → left x < left m → f x ≡ g x)
      → body f m ≡ body g m) where
  pub loop-Halts : (fuel : ℕ) (m : Machine H) → Good m → left m < fuel → Halts body m (loop fuel m)
  loop-Halts zero m good h = absurd (omega (arith, h))
  loop-Halts (suc fuel) m good h =
      round (loop fuel) (λ x. Good x × (left x < left m))
        (λ x further. loop-Halts fuel x further.0 (omega (arith, h, further.1)))
        (λ f same.
          falls f (loop fuel) m good (λ x fine lt. same x (fine, lt)) ∙ sym (unroll fuel m))
