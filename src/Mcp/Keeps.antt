-- ===== src/Mcp/Keeps.antt =====
-- Invariants of the actions of `Calls`, one rule for each way to build an action.
use repo_mcp.Prelude.{
  String, ◌≡◌, refl, Bool, true, false, Option, none, some, List, if◌then◌else◌, ℕ_eq, String_eq,
}
use repo_mcp.Prelude.Result.{Result, ok, err}
use repo_mcp.Mcp.Calls.{failing, Failure, Effect, State, M, continue, ◌>>=◌, pure, or_raise, act}

-- The backend's state and the log keep `P`, whether the action returns or raises.
pub record Keeps {W A : Type 0} (P : W → List Effect → Type 0) (m : M W A) : Type 0 where
  pub at : (st : State W) → P st.world st.log → P (m st).1.world (m st).1.log

module _ {W : Type 0} {P : W → List Effect → Type 0} where
  pub Keeps-pure : {A : Type 0} (a : A) → Keeps P (pure a)
  unfolding ◌>>=◌
  Keeps-pure a = record { at = λ st h. h }

  pub Keeps-or_raise : {A : Type 0} (o : Option A) (e : Failure) → Keeps P (or_raise o e)
  unfolding ◌>>=◌
  Keeps-or_raise none e = record { at = λ st h. h }
  Keeps-or_raise (some a) e = record { at = λ st h. h }

  pub Keeps-act :
      {A : Type 0} (error : String → Failure) (f : W → Result String A × W)
      → ((w : W) (l : List Effect) → P w l → P (f w).1 l)
      → Keeps P (act error f)
  unfolding ◌>>=◌
  Keeps-act error f k = record { at = λ st h. k st.world st.log h }

  pub Keeps-if :
      {A : Type 0} (t : Bool) (m n : M W A)
      → (t ≡ true → Keeps P m)
      → (t ≡ false → Keeps P n)
      → Keeps P (if t then m else n)
  Keeps-if true m n km kn = km refl
  Keeps-if false m n km kn = kn refl

  Keeps-continue :
      {A B : Type 0} (r : Result Failure A) (f : A → M W B) (st : State W)
      → ((a : A) → Keeps P (f a))
      → P st.world st.log
      → P (continue r f st).1.world (continue r f st).1.log
  Keeps-continue (ok a) f st k h = (k a).at st h
  Keeps-continue (err e) f st k h = h

  pub Keeps-bind :
      {A B : Type 0} (m : M W A) (f : A → M W B)
      → Keeps P m
      → ((a : A) → Keeps P (f a))
      → Keeps P (m >>= f)
  unfolding ◌>>=◌
  Keeps-bind m f km kf = record {
    at = λ st h. let (r, st') = m st in Keeps-continue r f st' kf (km.at st h);
  }

pub ruleset keeps_rules = (Keeps-pure, Keeps-or_raise, Keeps-act, Keeps-bind, Keeps-if)

-- What a result is: `R` of a value that is returned, `T` of what is raised.
abbrev pub Post : {A : Type 0} → (A → Type 0) → (Failure → Type 0) → Result Failure A → Type 0
Post R T (ok a) = R a
Post R T (err e) = T e

pub record Ends {W A : Type 0} (R : A → Type 0) (T : Failure → Type 0) (m : M W A) : Type 0 where
  pub at : (st : State W) → Post R T (m st).0

Post-failing :
    {A : Type 0} (R : A → Type 0) (T : Failure → Type 0) (error : String → Failure)
    (r : Result String A)
    → ((a : A) → r ≡ ok a → R a)
    → ((m : String) → T (error m))
    → Post R T (failing error r)
Post-failing R T error (ok a) k t = k a refl
Post-failing R T error (err m) k t = t m

module _ {W : Type 0} {T : Failure → Type 0} where
  pub Ends-pure : {A : Type 0} {R : A → Type 0} (a : A) → R a → Ends R T (pure {W = W} a)
  unfolding ◌>>=◌
  Ends-pure a r = record { at = λ st. r }

  Ends-continue :
      {A B : Type 0} {Q : A → Type 0} {R : B → Type 0} (r : Result Failure B) (f : B → M W A)
      (st : State W)
      → Post R T r
      → ((x : B) → R x → Ends Q T (f x))
      → Post Q T (continue r f st).0
  Ends-continue (ok x) f st first then_f = (then_f x first).at st
  Ends-continue (err x) f st first then_f = first

  pub Ends-bind :
      {A B : Type 0} {Q : A → Type 0} {R : B → Type 0} (m : M W B) (f : B → M W A)
      → Ends R T m
      → ((x : B) → R x → Ends Q T (f x))
      → Ends Q T (m >>= f)
  unfolding ◌>>=◌
  Ends-bind m f first then_f = record {
    at = λ st. Ends-continue (m st).0 f (m st).1 (first.at st) then_f;
  }

  pub Ends-act :
      {A : Type 0} {R : A → Type 0} (error : String → Failure) (f : W → Result String A × W)
      → ((w : W) (a : A) → (f w).0 ≡ ok a → R a)
      → ((m : String) → T (error m))
      → Ends R T (act error f)
  unfolding ◌>>=◌
  Ends-act {R} error f k t = record {
    at = λ st. Post-failing R T error (f st.world).0 (k st.world) t;
  }

-- Actions of which only what they raise matters.
abbrev pub Raises : {W A : Type 0} → (Failure → Type 0) → M W A → Type 0
Raises T m = Ends (λ a. Unit {0}) T m

module _ {W : Type 0} {T : Failure → Type 0} where
  pub Raises-pure : {A : Type 0} (a : A) → Raises T (pure {W = W} a)
  Raises-pure a = Ends-pure a tt

  pub Raises-or_raise :
      {A : Type 0} (o : Option A) (e : Failure) → T e → Raises T (or_raise {W = W} o e)
  unfolding ◌>>=◌
  Raises-or_raise none e t = record { at = λ st. t }
  Raises-or_raise (some a) e t = record { at = λ st. tt }

  pub Raises-act :
      {A : Type 0} (error : String → Failure) (f : W → Result String A × W)
      → ((m : String) → T (error m))
      → Raises T (act error f)
  Raises-act error f t = Ends-act error f (λ w a e. tt) t

  pub Raises-if :
      {A : Type 0} (t : Bool) (m n : M W A)
      → Raises T m
      → Raises T n
      → Raises T (if t then m else n)
  Raises-if true m n rm rn = rm
  Raises-if false m n rm rn = rn

  pub Raises-bind :
      {A B : Type 0} (m : M W B) (f : B → M W A)
      → Raises T m
      → ((x : B) → Raises T (f x))
      → Raises T (m >>= f)
  Raises-bind m f rm rf = Ends-bind m f rm (λ x u. rf x)
