-- ===== src/Messaging/State/Order.antt =====
-- `compareOrderKey` orders the keys: lexicographically by time and sequence number.
use deputy_agent.Prelude.{
  ◌≡◌, true, false, arith, text_lt_irrefl, text_lt_trans, text_lt_total, is_positive,
}
use deputy_agent.Messaging.State.{OrderKey, compare_order_key}

-- `a` does not come after `b`.
infix 50 ◌≤ₖ◌ ◌<ₖ◌
abbrev pub ◌≤ₖ◌ : OrderKey → OrderKey → Type 0
a ≤ₖ b = is_positive (compare_order_key a b) ≡ false

-- `b` comes after `a`, by the test that the bus makes.
abbrev pub ◌<ₖ◌ : OrderKey → OrderKey → Type 0
a <ₖ b = is_positive (compare_order_key b a) ≡ true

pub ≤ₖ_refl : (a : OrderKey) → a ≤ₖ a
unfolding compare_order_key
≤ₖ_refl a = ground (arith, text_lt_irrefl a.0)

pub ≤ₖ_of_<ₖ : (a b : OrderKey) → a <ₖ b → a ≤ₖ b
unfolding compare_order_key
≤ₖ_of_<ₖ a b h =
    ground (arith, text_lt_irrefl a.0, text_lt_trans a.0 b.0 a.0, text_lt_total a.0 b.0)

pub ≤ₖ_trans : (a b c : OrderKey) → a ≤ₖ b → b ≤ₖ c → a ≤ₖ c
unfolding compare_order_key
≤ₖ_trans a b c h k = ground (
  arith,
  text_lt_irrefl a.0,
  text_lt_trans a.0 b.0 c.0,
  text_lt_trans c.0 a.0 b.0,
  text_lt_trans b.0 c.0 a.0,
  text_lt_total a.0 b.0,
  text_lt_total b.0 c.0,
  text_lt_total a.0 c.0,
)

pub <ₖ_of_≤ₖ_<ₖ : (a b c : OrderKey) → a ≤ₖ b → b <ₖ c → a <ₖ c
unfolding compare_order_key
<ₖ_of_≤ₖ_<ₖ a b c h k = ground (
  arith,
  text_lt_irrefl a.0,
  text_lt_trans a.0 b.0 c.0,
  text_lt_trans c.0 a.0 b.0,
  text_lt_trans b.0 c.0 a.0,
  text_lt_total a.0 b.0,
  text_lt_total b.0 c.0,
  text_lt_total a.0 c.0,
)
