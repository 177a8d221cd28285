-- ===== src/Write/CreditTransfer/Yields.antt =====
-- What is known of the values that a program of the transfer returns.
use whmcs_mcp_server.Prelude.JsNumber.{JsNumber, finite}
use whmcs_mcp_server.Prelude.{Option, none, some, subst, refl, ◌≡◌, arith, Bool, true}
use whmcs_mcp_server.Write.CreditTransfer.Program.{
  outcome_of, call, attempt, money, M, Machine, Outcome, ok, threw, Thrown, ◌>>=◌, pure, throw,
  require, continue,
}

module _ {W : Type 0} where
  -- Every value that a program returns satisfies `Q`.
  pub record Yields {A : Type 0} (Q : A → Type 0) (m : M W A) : Type 0 where
    pub at : (st : Machine W) (a : A) → (m st).0 ≡ ok a → Q a

  pub Yields-pure : {A : Type 0} {Q : A → Type 0} (a : A) → Q a → Yields Q (pure a)
  unfolding pure
  Yields-pure {Q} a q = record { at = λ st b e. subst Q (ground arith) q }

  Yields-continue :
      {A B : Type 0} {Q : B → Type 0} (o : Outcome A) (k : A → M W B)
      → ((a : A) → Yields Q (k a))
      → Yields Q (continue o k)
  Yields-continue (ok a) k y = y a
  Yields-continue (threw e) k y = record { at = λ st b h. cc }

  pub Yields-bind :
      {A B : Type 0} {Q : B → Type 0} (m : M W A) (k : A → M W B)
      → ((a : A) → Yields Q (k a))
      → Yields Q (m >>= k)
  unfolding ◌>>=◌
  Yields-bind m k y = record {
    at = λ st b h. let (o, st') = m st in (Yields-continue o k y).at st' b h;
  }

  -- A program of which nothing is claimed.
  pub Yields-any : {A : Type 0} (m : M W A) → Yields (λ _. Unit {0}) m
  Yields-any m = record { at = λ st a e. tt }

  pub Yields-require : (b : Bool) (e : Thrown) → Yields (λ _. b ≡ true) (require {W = W} b e)
  unfolding require pure throw
  Yields-require b e = record { at = λ st a h. ground arith }

  pub Yields-weaken :
      {A B : Type 0} {R : A → Type 0} {Q : B → Type 0} (m : M W A) (k : A → M W B)
      → Yields R m
      → ((a : A) → R a → Yields Q (k a))
      → Yields Q (m >>= k)
  unfolding ◌>>=◌
  Yields-weaken {A} {B} {R} {Q} m k y f = record {
    at = λ st b h. let (o, st') = m st in go o st' (y.at st) b h;
  }
    where
      go :
          (o : Outcome A) (st' : Machine W)
          → ((a : A) → o ≡ ok a → R a)
          → (b : B) → (continue o k st').0 ≡ ok b
          → Q b
      go (ok a) st' r b h = (f a (r a refl)).at st' b h
      go (threw e) st' r b h = cc

  -- What a call that returned has returned, in some state of WHMCS.
  pub Yields-call :
      {A : Type 0} (f : W → Option A × W) → Yields (λ a. (w : W) × ((f w).0 ≡ some a)) (call f)
  unfolding call
  Yields-call {A} f = record { at = λ st a h. (st.whmcs, go (f st.whmcs).0 a h) }
    where
      go : (o : Option A) (a : A) → outcome_of o ≡ ok a → o ≡ some a
      go none a h = cc
      go (some b) a h = cc

  pub Yields-money : (n : JsNumber) → Yields (λ c. n ≡ finite c) (money n)
  unfolding money pure throw
  Yields-money n = record { at = λ st c h. ground arith }

  pub Yields-attempt :
      {A : Type 0} {Q : A → Type 0} (m : M W A)
      → Yields Q m
      → Yields (λ o. (a : A) → o ≡ ok a → Q a) (attempt m)
  unfolding attempt
  Yields-attempt m y = record { at = λ st o h a e. y.at st a (cc (h, e)) }

  -- What a program returns from a state, by what its first step returns from it.
  pub Yields-from :
      {A B : Type 0} {R : A → Type 0} {Q : B → Type 0} (m : M W A) (k : A → M W B) (st : Machine W)
      → ((a : A) → (m st).0 ≡ ok a → R a)
      → ((a : A) → R a → Yields Q (k a))
      → (b : B) → ((m >>= k) st).0 ≡ ok b
      → Q b
  unfolding ◌>>=◌
  Yields-from {A} {B} {R} {Q} m k st y f b h = let (o, st') = m st in go o st' y b h
    where
      go :
          (o : Outcome A) (st' : Machine W)
          → ((a : A) → o ≡ ok a → R a)
          → (b : B) → (continue o k st').0 ≡ ok b
          → Q b
      go (ok a) st' r b h = (f a (r a refl)).at st' b h
      go (threw e) st' r b h = cc

  pub ruleset yields_rules = (Yields-pure, Yields-bind)
