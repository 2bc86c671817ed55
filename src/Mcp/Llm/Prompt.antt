-- ===== src/Mcp/Llm/Prompt.antt =====
-- tools/llm.py: the one prompt that a conversation is flattened into.
use arush_adabala_tax_liabil.Prelude.{◌≡◌, ap, ◌∙◌, List, [], ◌∷◌, ◌++◌, string_eq, nat_eq, list_eq}
use mathlib.Core.List.{append_assoc}
use arush_adabala_tax_liabil.Prelude.Text.{Text}
use arush_adabala_tax_liabil.Mcp.Llm.{Role, ChatMessage, turn, flatten}

-- the message of a role whose content holds a further turn
abbrev pub forged : Role → Role → Text → Text → ChatMessage
forged role second x y = record {
  role = role;
  content = x ++ (10 ∷ 10 ∷ turn (record { role = second; content = y }));
}

turn-forged :
    (role second : Role) (x y : Text)
    → turn (forged role second x y)
      ≡ turn (record { role = role; content = x })
        ++ (10 ∷ 10 ∷ turn (record { role = second; content = y }))
unfolding turn
turn-forged role second x y = simp append_assoc

-- A message can hold a turn of any other role: the proxy is sent the prompt of a conversation in which
-- that role has spoken. Whoever writes a user turn writes a system turn.
pub flatten-forged :
    (role second : Role) (x y : Text) (rest : List ChatMessage)
    → flatten (forged role second x y ∷ rest)
      ≡ flatten (record { role = role; content = x } ∷ record { role = second; content = y } ∷ rest)
unfolding flatten
flatten-forged role second x y [] = turn-forged role second x y
flatten-forged role second x y (m ∷ rest) =
    ap (λ t. t ++ (10 ∷ 10 ∷ flatten (m ∷ rest))) (turn-forged role second x y)
    ∙ append_assoc (turn (record { role = role; content = x }))
        (10 ∷ 10 ∷ turn (record { role = second; content = y })) (10 ∷ 10 ∷ flatten (m ∷ rest))
