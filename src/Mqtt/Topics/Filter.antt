-- ===== src/Mqtt/Topics/Filter.antt =====
-- internal/mqtt/topics.go: what a subscription selects, and that topics do not collide.
use aqua_os.Common.{
  ℕ, String, ◌≡◌, ◌≢◌, ◌↔◌, refl, sym, ap, ◌∙◌, Bool, true, false, ◌&&◌, ◌||◌, List, [], ◌∷◌,
  Option, none, some, ok, if◌then◌else◌, arith, inl, inr, ok-injective, some-inj, ◌==◌, string_eq,
  eq_iff, ◌⊎◌,
}
use aqua_os.Mqtt.Topics.{
  Purpose, core_status, availability, sensor_state, equipment_reported, equipment_desired,
  command_request, command_result, alarm_state, event_stream, ai_observation, ha_discovery,
  ha_command, other_purpose, Policy, Registry, is_segment, matches_pattern, topic,
  subscription_filter, is_lower, topic_of,
}
use aqua_os.Mqtt.Topics.Levels.{levels, levels-root, below, own_levels, topic-levels}

-- MQTT's rule: the filter's levels select a topic's levels.
unfoldable pub selects : List String → List String → Bool
selects [] [] = true
selects [] (t ∷ ts) = false
selects (f ∷ fs) [] = f == "#"
selects (f ∷ fs) (t ∷ ts) = let rest = selects fs ts in f == "#" || (f == "+" || f == t) && rest

-- The purpose that a topic's own levels show.
purpose_of : List String → Option Purpose
purpose_of (kind ∷ x ∷ leaf ∷ []) =
    if kind == "system"
    then (if leaf == "status" then some core_status else some availability)
    else if kind == "sensors"
    then some sensor_state
    else if kind == "equipment"
    then (if leaf == "reported" then some equipment_reported else some equipment_desired)
    else if kind == "commands"
    then (if leaf == "request" then some command_request else some command_result)
    else some alarm_state
purpose_of (kind ∷ x ∷ []) = some event_stream
purpose_of _ = none

-- Whether `Topic` names a topic for the purpose.
abbrev is_named : Purpose → Bool
is_named ai_observation = false
is_named ha_discovery = false
is_named ha_command = false
is_named (other_purpose s) = false
is_named _ = true

purpose_of-own_levels :
    (p : Purpose) (x : String) → is_named p ≡ true → purpose_of (own_levels p x) ≡ some p
unfolding purpose_of
purpose_of-own_levels core_status x h = refl
purpose_of-own_levels availability x h = refl
purpose_of-own_levels sensor_state x h = refl
purpose_of-own_levels equipment_reported x h = refl
purpose_of-own_levels equipment_desired x h = refl
purpose_of-own_levels command_request x h = refl
purpose_of-own_levels command_result x h = refl
purpose_of-own_levels alarm_state x h = refl
purpose_of-own_levels event_stream x h = refl
purpose_of-own_levels ai_observation x h = cc
purpose_of-own_levels ha_discovery x h = cc
purpose_of-own_levels ha_command x h = cc
purpose_of-own_levels (other_purpose s) x h = cc

topic-named :
    (r : Registry) (p : Purpose) (x : String) (b : String × Policy)
    → topic r p x ≡ ok b
    → is_named p ≡ true
unfolding topic topic_of
topic-named r core_status x b h = refl
topic-named r availability x b h = refl
topic-named r sensor_state x b h = refl
topic-named r equipment_reported x b h = refl
topic-named r equipment_desired x b h = refl
topic-named r command_request x b h = refl
topic-named r command_result x b h = refl
topic-named r alarm_state x b h = refl
topic-named r event_stream x b h = refl
topic-named r ai_observation x b h = ground arith
topic-named r ha_discovery x b h = ground arith
topic-named r ha_command x b h = ground arith
topic-named r (other_purpose s) x b h = ground arith

-- A purpose whose topic does not name a resource.
abbrev pub IsCore : Purpose → Type 0
IsCore p = (p ≡ core_status) ⊎ (p ≡ availability)

second : List String → Option String
second (a ∷ b ∷ rest) = some b
second _ = none

own_levels-resource :
    (p : Purpose) (x y : String)
    → is_named p ≡ true
    → own_levels p x ≡ own_levels p y
    → IsCore p ⊎ (x ≡ y)
unfolding second
own_levels-resource core_status x y n h = inl (inl refl)
own_levels-resource availability x y n h = inl (inr refl)
own_levels-resource sensor_state x y n h = inr (some-inj (ap second h))
own_levels-resource equipment_reported x y n h = inr (some-inj (ap second h))
own_levels-resource equipment_desired x y n h = inr (some-inj (ap second h))
own_levels-resource command_request x y n h = inr (some-inj (ap second h))
own_levels-resource command_result x y n h = inr (some-inj (ap second h))
own_levels-resource alarm_state x y n h = inr (some-inj (ap second h))
own_levels-resource event_stream x y n h = inr (some-inj (ap second h))
own_levels-resource ai_observation x y n h = cc
own_levels-resource ha_discovery x y n h = cc
own_levels-resource ha_command x y n h = cc
own_levels-resource (other_purpose s) x y n h = cc

below-parts :
    (r q : Registry) (xs ys : List String)
    → below r xs ≡ below q ys
    → (r.site_id ≡ q.site_id) × (xs ≡ ys)
below-parts r q xs ys h = (cc, cc)

-- Registries of valid sites give one topic only to the same site and the same purpose, and to the
-- same resource unless the purpose is the core's status or availability, which name none.
pub topic-injective :
    (r q : Registry) (p p' : Purpose) (x y t : String) (a b : Policy)
    → is_segment r.site_id ≡ true
    → is_segment q.site_id ≡ true
    → topic r p x ≡ ok (t, a)
    → topic q p' y ≡ ok (t, b)
    → (r.site_id ≡ q.site_id) × (p ≡ p') × (IsCore p ⊎ (x ≡ y))
topic-injective r q p p' x y t a b site site' h k =
    let (_, levels_r) = topic-levels r p x t a site h in
    let (_, levels_q) = topic-levels q p' y t b site' k in
    let (same_site, same) = below-parts r q _ _ (sym levels_r ∙ levels_q) in
    let named = topic-named r p x (t, a) h in
    let purposes = some-inj (
      sym (purpose_of-own_levels p x named)
      ∙ ap purpose_of same
      ∙ purpose_of-own_levels p' y (topic-named q p' y (t, b) k)) in
    (
      same_site,
      purposes,
      own_levels-resource p x y named (same ∙ ap (λ z. own_levels z y) (sym purposes)),
    )

segment-plus : (s : String) → is_segment s ≡ true → s ≢ "+"
unfolding is_segment matches_pattern is_lower
segment-plus s h e = ground (arith, ap is_segment e)

-- The command filter's levels.
abbrev command_levels : Registry → List String
command_levels r = below r ("commands" ∷ "+" ∷ "request" ∷ [])

filter-levels :
    (r : Registry) (f : String) (n : ℕ)
    → is_segment r.site_id ≡ true
    → subscription_filter r command_request ≡ ok (f, n)
    → levels f ≡ command_levels r
unfolding subscription_filter levels
filter-levels r f n site h =
    rw (← ap (λ (b : String × ℕ). b.0) (ok-injective h)) (levels-root r "commands/+/request" site)

segment-hash : (s : String) → is_segment s ≡ true → s ≢ "#"
unfolding is_segment matches_pattern is_lower
segment-hash s h e = ground (arith, ap is_segment e)

abbrev is_request : Purpose → Bool
is_request command_request = true
is_request _ = false

own_selected :
    (p : Purpose) (x : String)
    → selects ("commands" ∷ "+" ∷ "request" ∷ []) (own_levels p x) ≡ is_request p
unfolding selects
own_selected core_status x = refl
own_selected availability x = refl
own_selected sensor_state x = refl
own_selected equipment_reported x = refl
own_selected equipment_desired x = refl
own_selected command_request x = refl
own_selected command_result x = refl
own_selected alarm_state x = refl
own_selected event_stream x = refl
own_selected ai_observation x = refl
own_selected ha_discovery x = refl
own_selected ha_command x = refl
own_selected (other_purpose s) x = refl

is_request_iff : (p : Purpose) → (is_request p ≡ true) ↔ (p ≡ command_request)
is_request_iff p = (λ h. to p h, λ q. ap is_request q)
  where
    to : (p : Purpose) → is_request p ≡ true → p ≡ command_request
    to core_status h = cc
    to availability h = cc
    to sensor_state h = cc
    to equipment_reported h = cc
    to equipment_desired h = cc
    to command_request h = refl
    to command_result h = cc
    to alarm_state h = cc
    to event_stream h = cc
    to ai_observation h = cc
    to ha_discovery h = cc
    to ha_command h = cc
    to (other_purpose s) h = cc

-- The filter for command requests of a registry with a valid site selects a topic that `Topic` names,
-- of any registry with a valid site, exactly when the two sites are the same and the topic is of a
-- command request.
pub filter_iff :
    (r q : Registry) (p : Purpose) (x f t : String) (n : ℕ) (policy : Policy)
    → is_segment r.site_id ≡ true
    → is_segment q.site_id ≡ true
    → subscription_filter r command_request ≡ ok (f, n)
    → topic q p x ≡ ok (t, policy)
    → (selects (levels f) (levels t) ≡ true) ↔ ((r.site_id ≡ q.site_id) × (p ≡ command_request))
unfolding selects
filter_iff r q p x f t n policy site site' h k =
    let (_, levels_t) = topic-levels q p x t policy site' k in
    rw (filter-levels r f n site h, levels_t, own_selected p x)
      (ground (
        arith,
        eq_iff r.site_id "#",
        eq_iff r.site_id "+",
        eq_iff r.site_id q.site_id,
        segment-hash r.site_id site,
        segment-plus r.site_id site,
        is_request_iff p,
      ))
