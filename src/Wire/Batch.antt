-- ===== src/Wire/Batch.antt =====
-- The loops of `ProcessRawData` and `ProcessPacket` over a queue: `if (prm-- == 0) break;`, with an
-- entry that is done replaced by a null pointer, and these removed behind the loop.
use net_cpp.Base.{ℕ, zero, suc, ◌≡◌, refl, ap, sym, ◌∙◌, List, [], ◌∷◌, ◌++◌, take, drop}
use net_cpp.Outcome.{Outcome, ok, ◌>>=◌, bind_assoc, bind_ext}

module _ {ℓ κ} {A : Type ℓ} {B : Type κ} (one : A → Outcome (List B)) where
  -- With `prm` left: what the entries give, and what stays in the queue.
  unfoldable pub batch : ℕ → List A → Outcome (List B × List A)
  batch prm [] = ok ([], [])
  batch zero (x ∷ xs) = ok ([], x ∷ xs)
  batch (suc prm) (x ∷ xs) = do ys ← one x; (more, left) ← batch prm xs; ok (ys ++ more, left)

  -- All of a list.
  abbrev pub all_of : List A → Outcome (List B)
  all_of [] = ok []
  all_of (x ∷ xs) = do ys ← one x; more ← all_of xs; ok (ys ++ more)

  pub batch-take :
      (prm : ℕ) (xs : List A) → batch prm xs ≡ (all_of (take prm xs) >>= λ ys. ok (ys, drop prm xs))
  unfolding batch
  batch-take zero [] = refl
  batch-take zero (x ∷ xs) = refl
  batch-take (suc prm) [] = refl
  batch-take (suc prm) (x ∷ xs) =
      bind_ext (one x) _ _ (λ ys e.
        ap (λ (o : Outcome (List B × List A)). o >>= λ (more, left). ok (ys ++ more, left))
          (batch-take prm xs)
        ∙ bind_assoc (all_of (take prm xs)) _ _
        ∙ sym (bind_assoc (all_of (take prm xs)) (λ more. ok (ys ++ more)) _))
      ∙ sym (bind_assoc (one x) _ _)

  -- Behind the entries of another queue.
  pub batch-into :
      (prm : ℕ) (xs : List A) (into : List B)
      → ◌≡◌ {A = Outcome (List A × List B)}
          (batch prm xs >>= λ (ys, left). ok (left, into ++ ys))
          (all_of (take prm xs) >>= λ ys. ok (drop prm xs, into ++ ys))
  batch-into prm xs into =
      ap (λ (o : Outcome (List B × List A)). o >>= λ (ys, left). ok (left, into ++ ys))
        (batch-take prm xs)
      ∙ bind_assoc (all_of (take prm xs)) _ _
