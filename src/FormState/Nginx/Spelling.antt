-- ===== src/FormState/Nginx/Spelling.antt =====
-- The two spellings of a site of the system's Nginx.
use go_resolver.Base.{Text, Option, none, some, ◌≡◌, refl, or_else}
use go_resolver.FormState.Nginx.{NginxFields, no_fields, map_system_nginx_site}

or_else-none {ℓ} : {A : Type ℓ} (o : Option A) → or_else o none ≡ o
or_else-none none = refl
or_else-none (some a) = refl

-- A site gives the same row in either spelling.
map_system_nginx_site-spelling :
    (id : Option Text) (f : NginxFields)
    → map_system_nginx_site (record { id = id; upper = f; lower = no_fields })
      ≡ map_system_nginx_site (record { id = id; upper = no_fields; lower = f })
unfolding map_system_nginx_site
map_system_nginx_site-spelling id f = simp or_else-none
