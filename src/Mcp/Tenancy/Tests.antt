-- ===== src/Mcp/Tenancy/Tests.antt =====
-- A header with an unusual scheme and white space around its token.
use arush_adabala_tax_liabil.Prelude.{◌≡◌, refl, ◌≢◌, Option, some, [], string_eq, nat_eq, list_eq}
use arush_adabala_tax_liabil.Prelude.Text.{Text, codes}
use arush_adabala_tax_liabil.Prelude.Dict.{lookup}
use arush_adabala_tax_liabil.Prelude.Equality.{list_beq}
use arush_adabala_tax_liabil.Mcp.Tenancy.{
  partition_space, lower, strip, drop_spaces, drop_last_spaces, is_space, set_request_identity,
  auth_headers, parse_bearer,
}
use arush_adabala_tax_liabil.Mcp.Tenancy.Bearer.{parse_bearer-auth_headers}

abbrev header : Option Text
header = some (codes "bEARER  abc ")

parsed : parse_bearer header ≡ codes "abc"
unfolding parse_bearer partition_space lower list_beq strip drop_spaces drop_last_spaces is_space
parsed = refl

present : parse_bearer header ≢ []
unfolding parse_bearer partition_space lower list_beq strip drop_spaces drop_last_spaces is_space
present = λ h. cc

parse_bearer-auth_headers_example :
    parse_bearer (
      lookup "Authorization" (
        auth_headers
          (set_request_identity (parse_bearer header) (codes "tenant-a"))
          (codes "own")
          (codes "tenant-a")))
    ≡ parse_bearer header
parse_bearer-auth_headers_example =
    parse_bearer-auth_headers header (codes "tenant-a") (codes "own") (codes "tenant-a") present
