-- ===== src/Square/Again.antt =====
-- A private request that comes twice.
use net_cpp.Base.{
  ℕ, ◌≡◌, subst, refl, sym, ◌∙◌, Option, none, some, List, [], ◌∷◌, codes, string_eq, ◌==◌, inl,
  inr, Bool-cases, ==_refl,
}
use net_cpp.Outcome.{Outcome, ok, ◌>>=◌, IfOk, bind-IfOk, reject, throws, fault}
use net_cpp.Wire.Request.{Request}
use net_cpp.Square.{
  ClientRegister, Outside, SqeServer, write_key, new_client, find_id, insert_id, push_respond,
}
use net_cpp.Square.Handlers.{register, status_ok, private_request, process_one_request}

-- The number of a request is known.
abbrev pub IsKnown : ℕ → List (ℕ × ClientRegister) → Type 0
IsKnown id m = (c : ClientRegister) × (find_id id m ≡ some c)

find_id-insert_id :
    (id : ℕ) (c : ClientRegister) (m : List (ℕ × ClientRegister)) → IsKnown id (insert_id id c m)
unfolding find_id insert_id
find_id-insert_id id c [] = rw (==_refl id) (c, refl)
find_id-insert_id id c ((i, d) ∷ m) = elim (Bool-cases (i == id)) [
  | inl e ↦ rw (e, e) (d, refl)
  | inr e ↦ let (k, known) = find_id-insert_id id c m in (k, rw (e, e, known))
]

-- Whatever a call returns, the rest leaves the property.
any-IfOk {ℓ κ μ} :
    {A : Type ℓ} {B : Type κ} (Q : B → Type μ) (m : Outcome A) (f : A → Outcome B)
    → ((a : A) → IfOk Q (f a))
    → IfOk Q (m >>= f)
any-IfOk Q (ok a) f k = k a
any-IfOk Q reject f k = tt
any-IfOk Q (throws e) f k = tt
any-IfOk Q fault f k = tt

module _ (o : Outside) where
  open o use {json_ints, json_string, json_int}

  abbrev Knows : ℕ → SqeServer o → Type 0
  Knows id t = IsKnown id t.rids

  register-Knows : (q : Request) (s : SqeServer o) → IfOk (Knows q.r_id) (register o q s)
  unfolding register
  register-Knows q s =
      let P = Knows q.r_id in
      let text = q.data_bytes in
      any-IfOk P (json_ints text (codes "key")) _ (λ items.
        any-IfOk P (write_key items (new_client o s).0.key) _ (λ key.
          any-IfOk P (json_string text (codes "name")) _ (λ name.
            any-IfOk P (json_string text (codes "tag")) _ (λ tag.
              any-IfOk P (json_int text (codes "listen_port")) _ (λ port.
                any-IfOk P (json_string text (codes "listen_ip")) _
                  (λ ip. find_id-insert_id q.r_id _ _))))))

  private_request-found :
      (q : Request) (s : SqeServer o) (found : Option ClientRegister)
      → find_id q.r_id s.rids ≡ found
      → IfOk (Knows q.r_id) (private_request o q s)
  unfolding private_request push_respond
  private_request-found q s (some c) known = rw known (c, known)
  private_request-found q s none unknown =
      rw unknown
        (bind-IfOk (Knows q.r_id) (Knows q.r_id) (register o q s) _ (register-Knows q s) (λ t k. k))

  -- A private request that was handled, and comes again to the server as it was left, is only
  -- answered: no second client is registered, no row is written, no clock is started and no number
  -- is drawn.
  pub process_one_request-again :
      (q : Request) (s t : SqeServer o)
      → q.type ≡ codes "private request"
      → process_one_request o q s ≡ ok t
      → process_one_request o q t ≡ ok (push_respond o q (codes "register respond") status_ok t)
  unfolding process_one_request string_eq private_request
  process_one_request-again q s t private handled =
      let same : (u : SqeServer o) → process_one_request o q u ≡ private_request o q u =
        (λ u. rw private refl) in
      let (c, known) : IsKnown q.r_id t.rids =
        subst (IfOk (Knows q.r_id)) (sym (same s) ∙ handled) (private_request-found q s _ refl) in
      same t ∙ rw known refl
