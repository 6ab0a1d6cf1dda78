-- ===== src/Analytics/Badges/Uncustomised.antt =====
-- Badges and `hasCustomFilters` agree on what is a filter.
use go_resolver.Base.{
  Text, ◌≡◌, append-nil, sym, ◌==◌, ◌≢◌, ◌↔◌, refl, ap, ◌∙◌, arith, Bool, false, not, ◌&&◌, Option,
  none, some, List, [], ◌∷◌, ◌++◌, codes, ◌===◌, ===_iff, ===_apart, if_ind, ◌⊎◌, inl, inr,
  if◌then◌else◌, truthy,
}
use go_resolver.Analytics.Filters.{Filters, trim, has_custom_filters}
use go_resolver.Analytics.Badges.{
  quoted, quick_range_options, label_of, push, range_badge, summarize_filters,
}

-- The badge of the range of the default filters.
abbrev pub default_badge : Text
default_badge = codes "Last 60 minutes"

no_end : (a : List Text) (b : Text) → a ++ b ∷ [] ≢ []
no_end [] b e = cc
no_end (_ ∷ _) b e = cc

last_one : (a : List Text) (b x : Text) → a ++ b ∷ [] ≡ x ∷ [] → (b ≡ x) × (a ≡ [])
last_one [] b x e = (cc, refl)
last_one (y ∷ a) b x e = absurd (no_end a b (cc))

abbrev begins_l : Text → Bool
begins_l [] = false
begins_l (c ∷ _) = c == b'L'

other_badge : (b : Text) → begins_l b ≡ false → b ≢ default_badge
other_badge b h e = let k = sym h ∙ ap begins_l e in cc

-- A badge that is not the only one of a list that ends in it is not there.
peel :
    (a : List Text) (t b : Text)
    → begins_l b ≡ false
    → a ++ push t b ≡ default_badge ∷ []
    → (truthy t ≡ false) × (a ≡ default_badge ∷ [])
peel a [] b h e = (refl, sym (append-nil a) ∙ e)
peel a (c ∷ t) b h e = absurd (other_badge b h (last_one a b default_badge e).0)

peel_all : (a : List Text) (t b : Text) → a ++ push t b ≡ [] → (truthy t ≡ false) × (a ≡ [])
peel_all a [] b e = (refl, sym (append-nil a) ∙ e)
peel_all a (c ∷ t) b e = absurd (no_end a b e)

-- The badge of the range is the default one exactly for the default range, if there is no date.
range_badge-default :
    (f : Filters)
    → truthy f.from ≡ false
    → truthy f.to ≡ false
    → f.range ≡ codes "60"
    → range_badge f ≡ default_badge ∷ []
unfolding range_badge label_of ◌===◌
range_badge-default f a b e = rw (a, b, e) refl

nil-cons : {x : Text} {xs : List Text} → [] ≢ x ∷ xs
nil-cons e = cc

none-some : {x : Text} → none ≢ some x
none-some e = cc

-- An option with another label is not the one that is found.
other_option :
    (r v label x : Text) (options : List (Text × Text))
    → (label === x) ≡ false
    → label_of r ((v, label) ∷ options) ≡ some x
    → ((v === r) ≡ false) × (label_of r options ≡ some x)
unfolding label_of
other_option r v label x options h =
    if_ind (λ o. o ≡ some x → ((v === r) ≡ false) × (label_of r options ≡ some x)) (v === r) _ _
      (λ _ e. absurd (===_apart {s = label} {t = x} h (cc))) (λ k e. (k, e))

found_option :
    (r v label x : Text) (options : List (Text × Text))
    → label_of r options ≢ some x
    → label_of r ((v, label) ∷ options) ≡ some x
    → v ≡ r
unfolding label_of
found_option r v label x options h =
    if_ind (λ o. o ≡ some x → v ≡ r) (v === r) _ _ (λ k _. (===_iff v r).0 k) (λ _ e. absurd (h e))

-- The options behind those of the first five hours.
abbrev last_days : List (Text × Text)
last_days = (codes "10080", codes "Last 7 days") ∷ []

abbrev last_hours : List (Text × Text)
last_hours = (codes "360", codes "Last 6 hours") ∷ (codes "1440", codes "Last 24 hours") ∷ last_days

label_of-last_hours : (r : Text) → label_of r last_hours ≢ some default_badge
unfolding ◌===◌ label_of
label_of-last_hours r k =
    let one =
      other_option r (codes "360") (codes "Last 6 hours") default_badge
        ((codes "1440", codes "Last 24 hours") ∷ last_days) refl k in
    let two =
      other_option r (codes "1440") (codes "Last 24 hours") default_badge last_days refl one.1 in
    let three = other_option r (codes "10080") (codes "Last 7 days") default_badge [] refl two.1 in
    none-some three.1

label_of-default : (r : Text) → label_of r quick_range_options ≡ some default_badge → codes "60" ≡ r
unfolding ◌===◌
label_of-default r e =
    found_option r (codes "60") default_badge default_badge last_hours (label_of-last_hours r)
      (other_option r (codes "15") (codes "Last 15 minutes") default_badge
        ((codes "60", default_badge) ∷ last_hours) refl e).1

no_option :
    (o : Option Text) (a : List Text)
    → a ++ (elim o as (λ _. List Text) [
      | none ↦ []
      | some label ↦ if truthy label then label ∷ [] else []
    ])
      ≡ default_badge ∷ []
    → (a ≡ default_badge ∷ []) ⊎ ((a ≡ []) × (o ≡ some default_badge))
no_option none a e = inl (sym (append-nil a) ∙ e)
no_option (some []) a e = inl (sym (append-nil a) ∙ e)
no_option (some (c ∷ t)) a e = let k = last_one a (c ∷ t) default_badge e in inr (k.1, ap some k.0)

-- Only the default range is set.
record IsUnset (f : Filters) : Type 0 where
  range : f.range ≡ codes "60"
  from : truthy f.from ≡ false
  to : truthy f.to ≡ false
  host : truthy f.host ≡ false
  q : truthy (trim f.q) ≡ false
  filter : truthy f.filter ≡ false
  method : truthy f.method ≡ false
  status : truthy f.status ≡ false
  status_class : truthy f.status_class ≡ false
  uri_contains : truthy (trim f.uri_contains) ≡ false
  ip_contains : truthy (trim f.ip_contains) ≡ false
  isp_contains : truthy (trim f.isp_contains) ≡ false

unset : (f : Filters) → has_custom_filters f ≡ false → IsUnset f
unfolding has_custom_filters
unset f h = record {
  range = (===_iff f.range (codes "60")).0 (ground arith);
  from = ground arith;
  to = ground arith;
  host = ground arith;
  q = ground arith;
  filter = ground arith;
  method = ground arith;
  status = ground arith;
  status_class = ground arith;
  uri_contains = ground arith;
  ip_contains = ground arith;
  isp_contains = ground arith;
}

push-off : (t b : Text) → truthy t ≡ false → push t b ≡ []
push-off [] b h = refl
push-off (c ∷ t) b h = absurd (cc)

module _ (format_date_time : Text → Text) (f : Filters) where
  -- Without a filter that is set, the badges are that of the default range.
  uncustomised :
      has_custom_filters f ≡ false → summarize_filters format_date_time f ≡ default_badge ∷ []
  unfolding summarize_filters has_custom_filters
  uncustomised h =
      let k = unset f h in
      rw
        (
          push-off f.from (codes "From " ++ format_date_time f.from) k.from,
          push-off f.to (codes "To " ++ format_date_time f.to) k.to,
          range_badge-default f k.from k.to k.range,
          push-off f.host (codes "Host " ++ f.host) k.host,
          push-off (trim f.q) (quoted (codes "Search ") (trim f.q)) k.q,
          push-off f.method (codes "Method " ++ f.method) k.method,
          push-off f.status (codes "Status " ++ f.status) k.status,
          push-off f.status_class (codes "Class " ++ f.status_class) k.status_class,
          push-off f.filter (codes "Verdict " ++ f.filter) k.filter,
          push-off (trim f.uri_contains) (quoted (codes "URI contains ") (trim f.uri_contains))
              k.uri_contains,
          push-off (trim f.ip_contains) (quoted (codes "IP contains ") (trim f.ip_contains))
              k.ip_contains,
          push-off (trim f.isp_contains) (quoted (codes "ISP contains ") (trim f.isp_contains))
              k.isp_contains,
        )
        refl

  -- The badges of the dates are no badge of a range.
  only_dates :
      (a : List Text)
      → a
        ≡ push f.from (codes "From " ++ format_date_time f.from)
          ++ push f.to (codes "To " ++ format_date_time f.to)
      → a ≢ default_badge ∷ []
  only_dates a e h =
      let to =
        peel (push f.from (codes "From " ++ format_date_time f.from)) f.to _ refl (sym e ∙ h) in
      let from = peel [] f.from _ refl to.1 in nil-cons from.1

  dates :
      (a : List Text)
      → a
        ≡ push f.from (codes "From " ++ format_date_time f.from)
          ++ push f.to (codes "To " ++ format_date_time f.to)
      → a ++ range_badge f ≡ default_badge ∷ []
      → (truthy f.from ≡ false) × (truthy f.to ≡ false) × (codes "60" ≡ f.range)
  unfolding range_badge
  dates a e =
      if_ind
        (λ l.
          a ++ l ≡ default_badge ∷ []
          → (truthy f.from ≡ false) × (truthy f.to ≡ false) × (codes "60" ≡ f.range))
        (not (truthy f.from) && not (truthy f.to) && truthy f.range) _ _
        (λ _ h. elim (no_option (label_of f.range quick_range_options) a h) [
          | inl k ↦ absurd (only_dates a e k)
          | inr (k, o) ↦
              let to =
                peel_all (push f.from (codes "From " ++ format_date_time f.from)) f.to _
                  (sym e ∙ k) in
              let from = peel_all [] f.from _ to.1 in (from.0, to.0, label_of-default f.range o)
        ])
        (λ _ h. absurd (only_dates a e (sym (append-nil a) ∙ h)))

  customised :
      summarize_filters format_date_time f ≡ default_badge ∷ [] → has_custom_filters f ≡ false
  unfolding summarize_filters has_custom_filters ◌===◌
  customised e =
      let isp = peel _ (trim f.isp_contains) _ refl e in
      let ip = peel _ (trim f.ip_contains) _ refl isp.1 in
      let uri = peel _ (trim f.uri_contains) _ refl ip.1 in
      let filter = peel _ f.filter _ refl uri.1 in
      let class = peel _ f.status_class _ refl filter.1 in
      let status = peel _ f.status _ refl class.1 in
      let method = peel _ f.method _ refl status.1 in
      let q = peel _ (trim f.q) _ refl method.1 in
      let host = peel _ f.host _ refl q.1 in
      let range = dates _ refl host.1 in
      rw
        (
          sym range.2,
          range.0,
          range.1,
          host.0,
          q.0,
          filter.0,
          method.0,
          status.0,
          class.0,
          uri.0,
          ip.0,
          isp.0,
        )
        refl

  -- The badges of the filters are that of the default range alone exactly if there are no custom
  -- filters.
  pub summarize_filters-default :
      (summarize_filters format_date_time f ≡ default_badge ∷ []) ↔ (has_custom_filters f ≡ false)
  summarize_filters-default = (customised, uncustomised)
