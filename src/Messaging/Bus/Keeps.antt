-- ===== src/Messaging/Bus/Keeps.antt =====
-- Invariants of actions on the bus, one rule for each way to build an action.
pub mod Write
use deputy_agent.Prelude.{◌≡◌, refl, Bool, true, false, if◌then◌else◌}
use deputy_agent.Messaging.Bus.{
  Bus, BusError, Action, Result, ok, err, pure, raise, gets, asks, handle, rescue, continue, ◌>>=◌,
  ◌>>◌, raise_if,
}

-- `m` keeps `P`, whether it returns or throws.
pub record Keeps {A : Type 0} (P : Bus → Type 0) (m : Action A) : Type 0 where
  pub at : (b : Bus) → P b → P (m b).1

module _ {A : Type 0} {P : Bus → Type 0} where
  pub Keeps-pure : (a : A) → Keeps P (pure a)
  unfolding pure
  Keeps-pure a = record { at = λ b h. h }

  pub Keeps-raise : (e : BusError) → Keeps P (raise {A = A} e)
  unfolding raise
  Keeps-raise e = record { at = λ b h. h }

  pub Keeps-get : (f : Bus → A) → Keeps P (gets f)
  unfolding gets
  Keeps-get f = record { at = λ b h. h }

  pub Keeps-asks : (f : Bus → Result A) → Keeps P (asks f)
  unfolding asks
  Keeps-asks f = record { at = λ b h. h }

  pub Keeps-if :
      (c : Bool) (m n : Action A)
      → (c ≡ true → Keeps P m)
      → (c ≡ false → Keeps P n)
      → Keeps P (if c then m else n)
  Keeps-if true m n km kn = km refl
  Keeps-if false m n km kn = kn refl

  Keeps-handle :
      (handler : BusError → Action A) (r : Result A)
      → ((e : BusError) → Keeps P (handler e))
      → Keeps P (handle handler r)
  Keeps-handle handler (ok a) kh = record { at = λ b h. h }
  Keeps-handle handler (err e) kh = record { at = λ b h. (kh e).at b h }

  pub Keeps-rescue :
      (m : Action A) (handler : BusError → Action A)
      → Keeps P m
      → ((e : BusError) → Keeps P (handler e))
      → Keeps P (rescue m handler)
  unfolding rescue
  Keeps-rescue m handler km kh = record {
    at = λ b h. let (r, b') = m b in (Keeps-handle handler r kh).at b' (km.at b h);
  }

module _ {A B : Type 0} {P : Bus → Type 0} where
  Keeps-continue :
      (r : Result A) (f : A → Action B) → ((a : A) → Keeps P (f a)) → Keeps P (continue r f)
  Keeps-continue (ok a) f kf = record { at = λ b h. (kf a).at b h }
  Keeps-continue (err e) f kf = record { at = λ b h. h }

  pub Keeps-bind :
      (start : Action A) (next : A → Action B)
      → Keeps P start
      → ((a : A) → Keeps P (next a))
      → Keeps P (start >>= next)
  unfolding ◌>>=◌
  Keeps-bind start next ks kn = record {
    at = λ b h. let (r, b') = start b in (Keeps-continue r next kn).at b' (ks.at b h);
  }

  -- What is read off the state may be used with what holds of that state.
  pub Keeps-gets :
      (g : Bus → A) (f : A → Action B)
      → ((b : Bus) → P b → P (f (g b) b).1)
      → Keeps P (gets g >>= f)
  unfolding ◌>>=◌
  Keeps-gets g f k = record { at = k }

module _ {B : Type 0} {P : Bus → Type 0} where
  -- After a guard its test is known to be false.
  pub Keeps-raise_if :
      (c : Bool) (e : BusError) (m : Action B)
      → (c ≡ false → Keeps P m)
      → Keeps P (raise_if c e >> m)
  unfolding ◌>>=◌
  Keeps-raise_if true e m k = record { at = λ b h. h }
  Keeps-raise_if false e m k = record { at = λ b h. (k refl).at b h }

pub ruleset keeps_rules =
    (Keeps-pure, Keeps-raise, Keeps-get, Keeps-asks, Keeps-if, Keeps-rescue, Keeps-bind)
