-- ===== src/Messaging/Bus/Triple.antt =====
-- Conditions before and after an action on the bus, which may differ with what it returns.
use deputy_agent.Prelude.{◌≡◌, ◌⊎◌, inl, inr, refl, Bool, true, false, if◌then◌else◌}
use deputy_agent.Messaging.Bus.{
  Bus, BusError, Action, Result, ok, err, pure, raise, gets, handle, rescue, continue, ◌>>=◌, ◌>>◌,
  raise_if,
}
use deputy_agent.Messaging.Bus.Keeps.{Keeps}

-- `Q` of a value that is returned with the bus then, `E` of the bus after a throw
abbrev pub After : {A : Type 0} → (A → Bus → Type 0) → (Bus → Type 0) → Result A → Bus → Type 0
After Q E (ok a) b = Q a b
After Q E (err e) b = E b

-- `m` from a bus with `P` ends as `After Q E` says.
pub record Triple {A : Type 0} (P : Bus → Type 0) (m : Action A) (Q : A → Bus → Type 0)
    (E : Bus → Type 0) : Type 0 where
  pub at : (b : Bus) → P b → After Q E (m b).0 (m b).1

pub Triple-pure :
    {A : Type 0} {P : Bus → Type 0} {E : Bus → Type 0} {Q : A → Bus → Type 0} (a : A)
    → ((b : Bus) → P b → Q a b)
    → Triple P (pure a) Q E
unfolding pure
Triple-pure a h = record { at = h }

pub Triple-raise :
    {A : Type 0} {P E : Bus → Type 0} {Q : A → Bus → Type 0} (e : BusError)
    → ((b : Bus) → P b → E b)
    → Triple P (raise e) Q E
unfolding raise
Triple-raise e h = record { at = h }

pub Triple-if :
    {A : Type 0} {P : Bus → Type 0} {E : Bus → Type 0} {Q : A → Bus → Type 0} (c : Bool)
    (m n : Action A)
    → (c ≡ true → Triple P m Q E)
    → (c ≡ false → Triple P n Q E)
    → Triple P (if c then m else n) Q E
Triple-if true m n tm tn = tm refl
Triple-if false m n tm tn = tn refl

after_kept :
    {A : Type 0} (P : Bus → Type 0) (r : Result A) (b : Bus) → P b → After {A = A} (λ a. P) P r b
after_kept P (ok a) b h = h
after_kept P (err e) b h = h

pub Triple-keeps :
    {A : Type 0} {P : Bus → Type 0} (m : Action A) → Keeps P m → Triple P m (λ a. P) P
Triple-keeps m k = record { at = λ b h. after_kept _ (m b).0 (m b).1 (k.at b h) }

weakened :
    {A : Type 0} {E : Bus → Type 0} {Q R : A → Bus → Type 0} {F : Bus → Type 0} (r : Result A)
    (b : Bus)
    → ((a : A) (c : Bus) → Q a c → R a c)
    → ((c : Bus) → E c → F c)
    → After Q E r b
    → After R F r b
weakened (ok a) b q e h = q a b h
weakened (err x) b q e h = e b h

pub Triple-weaken :
    {A : Type 0} {P : Bus → Type 0} {E : Bus → Type 0} {Q R : A → Bus → Type 0} {F : Bus → Type 0}
    (m : Action A)
    → ((a : A) (b : Bus) → Q a b → R a b)
    → ((b : Bus) → E b → F b)
    → Triple P m Q E
    → Triple P m R F
Triple-weaken m q e t = record { at = λ b h. weakened (m b).0 (m b).1 q e (t.at b h) }

always :
    {A : Type 0} (E : Bus → Type 0) (r : Result A) (b : Bus) → After {A = A} (λ a. E) E r b → E b
always E (ok a) b h = h
always E (err e) b h = h

-- A condition of the bus however the action ends.
pub Triple-end :
    {A : Type 0} {P : Bus → Type 0} {E : Bus → Type 0} (m : Action A) (b : Bus)
    → Triple P m (λ a. E) E
    → P b
    → E (m b).1
Triple-end m b t h = always _ (m b).0 (m b).1 (t.at b h)

continued :
    {A : Type 0} {B : Type 0} {E : Bus → Type 0} {Q : A → Bus → Type 0} {R : B → Bus → Type 0}
    (r : Result A) (f : A → Action B) (b : Bus)
    → ((a : A) → Triple (Q a) (f a) R E)
    → After Q E r b
    → After R E (continue r f b).0 (continue r f b).1
continued (ok a) f b t h = (t a).at b h
continued (err e) f b t h = h

pub Triple-bind :
    {A : Type 0} {B : Type 0} {P : Bus → Type 0} {E : Bus → Type 0} {Q : A → Bus → Type 0}
    {R : B → Bus → Type 0} (m : Action A) (f : A → Action B)
    → Triple P m Q E
    → ((a : A) → Triple (Q a) (f a) R E)
    → Triple P (m >>= f) R E
unfolding ◌>>=◌
Triple-bind m f t u = record { at = λ b h. continued (m b).0 f (m b).1 u (t.at b h) }

handled :
    {A : Type 0} {E : Bus → Type 0} {F : Bus → Type 0} {Q : A → Bus → Type 0} (r : Result A)
    (handler : BusError → Action A) (b : Bus)
    → ((e : BusError) → Triple E (handler e) Q F)
    → After Q E r b
    → After Q F (handle handler r b).0 (handle handler r b).1
handled (ok a) handler b t h = h
handled (err e) handler b t h = (t e).at b h

pub Triple-rescue :
    {A : Type 0} {P : Bus → Type 0} {E : Bus → Type 0} {F : Bus → Type 0} {Q : A → Bus → Type 0}
    (m : Action A) (handler : BusError → Action A)
    → Triple P m Q E
    → ((e : BusError) → Triple E (handler e) Q F)
    → Triple P (rescue m handler) Q F
unfolding rescue
Triple-rescue m handler t u = record { at = λ b h. handled (m b).0 handler (m b).1 u (t.at b h) }

-- What is read off the state may be used with what holds of that state.
pub Triple-gets :
    {A : Type 0} {B : Type 0} {P : Bus → Type 0} {E : Bus → Type 0} {R : B → Bus → Type 0}
    (g : Bus → A) (f : A → Action B)
    → ((a : A) → Triple (λ b. P b × (g b ≡ a)) (f a) R E)
    → Triple P (gets g >>= f) R E
unfolding ◌>>=◌
Triple-gets g f t = record { at = λ b h. (t (g b)).at b (h, refl) }

-- A fact that the condition before implies may be used for the action.
pub Triple-know :
    {A : Type 0} {P E : Bus → Type 0} {Q : A → Bus → Type 0} {X : Type 0} (m : Action A)
    → ((b : Bus) → P b → X)
    → (X → Triple P m Q E)
    → Triple P m Q E
Triple-know m f t = record { at = λ b h. (t (f b h)).at b h }

-- A stronger condition before.
pub Triple-before :
    {A : Type 0} {P R E : Bus → Type 0} {Q : A → Bus → Type 0} (m : Action A)
    → ((b : Bus) → P b → R b)
    → Triple R m Q E
    → Triple P m Q E
Triple-before m f t = record { at = λ b h. t.at b (f b h) }

pub Triple-kept :
    {A : Type 0} {P E : Bus → Type 0} (m : Action A)
    → Keeps P m
    → ((b : Bus) → P b → E b)
    → Triple P m (λ a. P) E
Triple-kept m k e = Triple-weaken m (λ a b p. p) e (Triple-keeps m k)

either :
    {P R : Bus → Type 0} {X : Bus → Type 0}
    → ((b : Bus) → P b → X b)
    → ((b : Bus) → R b → X b)
    → (b : Bus) → P b ⊎ R b
    → X b
either f g b (inl p) = f b p
either f g b (inr r) = g b r

pub Triple-or :
    {A : Type 0} {P R E : Bus → Type 0} {Q : A → Bus → Type 0} (m : Action A)
    → Triple P m Q E
    → Triple R m Q E
    → Triple (λ b. P b ⊎ R b) m Q E
Triple-or m t u = record { at = λ b h. either t.at u.at b h }

-- After a guard its test is known to be false.
pub Triple-raise_if :
    {A : Type 0} {P E : Bus → Type 0} {Q : A → Bus → Type 0} (c : Bool) (e : BusError)
    (m : Action A)
    → ((b : Bus) → P b → E b)
    → (c ≡ false → Triple P m Q E)
    → Triple P (raise_if c e >> m) Q E
unfolding ◌>>=◌
Triple-raise_if true e m h t = record { at = h }
Triple-raise_if false e m h t = record { at = λ b p. (t refl).at b p }
