-- ===== src/Agent/Api/Keys.antt =====
-- Which calls share an idempotency key.
use mathlib.Core.List.{append_assoc}
use arush_adabala_tax_liabil.Prelude.{◌≡◌, string_eq, nat_eq, list_eq}
use arush_adabala_tax_liabil.Prelude.Text.{Text}
use arush_adabala_tax_liabil.Prelude.Text.Separator.{Free, split_unique}
use arush_adabala_tax_liabil.Agent.Api.{Args, payload}

module _ {J : Type 0} (dumps : Args J → Text) where
  -- The text that a key is derived from tells its call apart: two calls share it only if their
  -- threads, their tools and their serialised arguments are the same, for threads and tools that
  -- hold no "|".
  pub payload_injective :
      (thread thread' tool tool' : Text) (args args' : Args J)
      → Free b'|' thread
      → Free b'|' thread'
      → Free b'|' tool
      → Free b'|' tool'
      → payload dumps thread tool args ≡ payload dumps thread' tool' args'
      → (thread ≡ thread') × (tool ≡ tool') × (dumps args ≡ dumps args')
  unfolding payload
  payload_injective thread thread' tool tool' args args' f f' g g' e =
      let (threads, rest) = split_unique b'|' thread thread' _ _ f f' (simp append_assoc at e) in
      let (tools, dumped) = split_unique b'|' tool tool' _ _ g g' rest in (threads, tools, dumped)
