-- ===== src/Mcp/Money/Print.antt =====
-- `str` of a `Decimal`: plain notation down to 10⁻⁶, else one digit before the point and an exponent.
use arush_adabala_tax_liabil.Prelude.{
  ℕ, zero, suc, ◌+◌, ◌-◌, [], ◌∷◌, ◌++◌, ltb, if◌then◌else◌, length, take, string_eq, nat_eq,
  list_eq,
}
use arush_adabala_tax_liabil.Prelude.Int.{pos, negsuc}
use arush_adabala_tax_liabil.Prelude.Text.{Text, codes}
use arush_adabala_tax_liabil.Prelude.Text.Decimal.{decimal}
use arush_adabala_tax_liabil.Mcp.Money.{Decimal}

unfoldable pub zeros : ℕ → Text
zeros zero = []
zeros (suc n) = b'0' ∷ zeros n

unfoldable pub drop : ℕ → Text → Text
drop zero s = s
drop (suc n) [] = []
drop (suc n) (c ∷ s) = drop n s

-- digits with a point behind the first `n` of them, where any follow
unfoldable pub point_at : ℕ → Text → Text
point_at n s = if ltb n (length s) then take n s ++ b'.' ∷ drop n s else s

-- digits with `p` places behind the point, `p` from one
unfoldable pub plain : ℕ → Text → Text
unfolding point_at
plain p s =
    if ltb p (length s) then point_at (length s - p) s else codes "0." ++ zeros (p - length s) ++ s

unfoldable pub unsigned : Decimal → Text
unfolding plain point_at
unsigned d =
    let s = decimal d.coefficient in
    elim d.exponent [
      | pos zero ↦ s
      | pos (suc e) ↦ point_at 1 s ++ codes "E+" ++ decimal (e + length s)
      | negsuc k ↦
          if ltb (suc k) (length s + 6)
          then plain (suc k) s
          else point_at 1 s ++ codes "E-" ++ decimal (suc (suc k) - length s)
    ]

unfoldable pub show : Decimal → Text
unfolding unsigned
show d = if d.negative then b'-' ∷ unsigned d else unsigned d
