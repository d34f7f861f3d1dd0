-- ===== src/Messaging/Bus/Steps.antt =====
-- Actions that end well: what went before them did too.
use deputy_agent.Prelude.{◌≡◌, refl}
use deputy_agent.Messaging.Bus.{Bus, Action, Result, ok, err, pure, continue, ◌>>=◌}

bind_step :
    {A B : Type 0} (r' : Result A) (k : A → Action B) (b : Bus) {r : B}
    → (continue r' k b).0 ≡ ok r
    → (a : A) × (r' ≡ ok a) × ((k a b).0 ≡ ok r)
bind_step (ok a) k b h = (a, refl, h)
bind_step (err e) k b h = cc h

pub bind-inv :
    {A B : Type 0} (x : Action A) (k : A → Action B) (b : Bus) {r : B}
    → ((x >>= k) b).0 ≡ ok r
    → (a : A) × ((x b).0 ≡ ok a) × ((k a (x b).1).0 ≡ ok r)
unfolding ◌>>=◌
bind-inv x k b h = bind_step (x b).0 k (x b).1 h

pub pure-inv : {A : Type 0} (x y : A) (b : Bus) → ((pure x) b).0 ≡ ok y → x ≡ y
unfolding pure
pure-inv x y b h = cc h
