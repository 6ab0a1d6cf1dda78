-- ===== src/FormState/Sites/RoundTrip.antt =====
-- What `mapSite` writes into a row.
use go_resolver.Base.{
  Text, ℕ, zero, suc, ◌≡◌, refl, Option, none, some, codes, decimal, value, value_or, [],
}
use go_resolver.Base.Decimal.RoundTrip.{value-decimal}
use go_resolver.FormState.Sites.{
  ServerConfiguration, SiteRow, map_site, number_or, number_or_empty, text_or_empty,
}

-- A number that is kept, with what stands for a missing one.
abbrev pub Kept : Text → Option ℕ → Text → Type 0
Kept fallback none shown = shown ≡ fallback
Kept fallback (some n) shown = value shown ≡ n

-- A number that is kept unless it is zero, with what stands for a missing one and for zero.
abbrev pub KeptPositive : Text → Option ℕ → Text → Type 0
KeptPositive fallback none shown = shown ≡ fallback
KeptPositive fallback (some zero) shown = shown ≡ fallback
KeptPositive fallback (some (suc n)) shown = value shown ≡ suc n

abbrev pub KeptText : Option Text → Text → Type 0
KeptText none shown = shown ≡ []
KeptText (some s) shown = shown ≡ s

-- What a row says of its site.
pub record IsRead (site : ServerConfiguration) (row : SiteRow) : Type 0 where
  pub id : value row.id ≡ site.id
  pub name : KeptText site.server_name row.server_name
  pub enabled : Kept (codes "1") site.site_enabled row.site_enabled
  pub port : KeptPositive [] site.server_port row.server_port
  pub ssl : Kept (codes "0") site.ssl_enabled row.ssl_enabled
  pub redirect : Kept (codes "0") site.ssl_redirect row.ssl_redirect
  pub hsts : Kept (codes "0") site.hsts row.hsts
  pub pass_port : KeptPositive [] site.proxy_pass_port row.proxy_pass_port
  pub errors : Kept (codes "0") site.proxy_intercept_errors row.proxy_intercept_errors
  pub connect : KeptPositive (codes "5") site.proxy_connect_timeout row.proxy_connect_timeout
  pub read : KeptPositive (codes "300") site.proxy_read_timeout row.proxy_read_timeout
  pub send : KeptPositive (codes "300") site.proxy_send_timeout row.proxy_send_timeout
  pub websockets : Kept (codes "0") site.websockets row.websockets

value_or-Kept :
    (o : Option ℕ) (d : ℕ) (fallback : Text)
    → decimal d ≡ fallback
    → Kept fallback o (decimal (value_or o d))
value_or-Kept none d fallback h = h
value_or-Kept (some n) d fallback h = value-decimal n

number_or-KeptPositive :
    (o : Option ℕ) (d : ℕ) (fallback : Text)
    → decimal d ≡ fallback
    → KeptPositive fallback o (decimal (number_or o d))
unfolding number_or
number_or-KeptPositive none d fallback h = h
number_or-KeptPositive (some zero) d fallback h = h
number_or-KeptPositive (some (suc n)) d fallback h = value-decimal (suc n)

number_or_empty-KeptPositive : (o : Option ℕ) → KeptPositive [] o (number_or_empty o)
unfolding number_or_empty
number_or_empty-KeptPositive none = refl
number_or_empty-KeptPositive (some zero) = refl
number_or_empty-KeptPositive (some (suc n)) = value-decimal (suc n)

text_or_empty-KeptText : (o : Option Text) → KeptText o (text_or_empty o)
text_or_empty-KeptText none = refl
text_or_empty-KeptText (some s) = refl

-- In every row of `mapSite` each number reads as that of the site, and the name is the site's. A missing
-- setting reads as off, but the site as enabled; a missing or zero port reads as nothing, and a missing
-- or zero timeout as the default, 5 for connecting and 300 for reading and sending.
pub map_site-IsRead : (site : ServerConfiguration) → IsRead site (map_site site)
unfolding map_site decimal
map_site-IsRead site = record {
  id = value-decimal site.id;
  name = text_or_empty-KeptText site.server_name;
  enabled = value_or-Kept site.site_enabled 1 (codes "1") refl;
  port = number_or_empty-KeptPositive site.server_port;
  ssl = value_or-Kept site.ssl_enabled 0 (codes "0") refl;
  redirect = value_or-Kept site.ssl_redirect 0 (codes "0") refl;
  hsts = value_or-Kept site.hsts 0 (codes "0") refl;
  pass_port = number_or_empty-KeptPositive site.proxy_pass_port;
  errors = value_or-Kept site.proxy_intercept_errors 0 (codes "0") refl;
  connect = number_or-KeptPositive site.proxy_connect_timeout 5 (codes "5") refl;
  read = number_or-KeptPositive site.proxy_read_timeout 300 (codes "300") refl;
  send = number_or-KeptPositive site.proxy_send_timeout 300 (codes "300") refl;
  websockets = value_or-Kept site.websockets 0 (codes "0") refl;
}
