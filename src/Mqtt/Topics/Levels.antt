-- ===== src/Mqtt/Topics/Levels.antt =====
-- internal/mqtt/topics.go: the levels of the topics that `Topic` names.
use Prim.Native.Char.{Char, code}
use Prim.Native.String.{◌++◌ as text_append}
use text.Mathlib.TextLemmas.{nil-append, cons-append, append_assoc}
use aqua_os.Common.{
  String, ◌≡◌, refl, ap, ◌∙◌, Bool, true, not, ◌&&◌, ◌||◌, List, [], ◌∷◌, Result, ok, err, Error,
  eqb, if◌then◌else◌, arith, Bool-cases, inl, inr, ok-injective,
}
use aqua_os.Mqtt.Topics.{
  Purpose, core_status, availability, sensor_state, equipment_reported, equipment_desired,
  command_request, command_result, alarm_state, event_stream, ai_observation, ha_discovery,
  ha_command, other_purpose, Policy, Registry, is_lower, is_digit, segment_tail, matches_pattern,
  is_segment, has_reserved, root, topic_of, topic,
}

-- A character before the first level of a text.
unfoldable pub onto_first : Char → List String → List String
onto_first c [] = String.◌∷◌ c "" ∷ []
onto_first c (level ∷ rest) = String.◌∷◌ c level ∷ rest

-- The levels of a topic or of a filter: the texts between its slashes.
unfoldable pub levels : String → List String
unfolding onto_first
levels String.[] = "" ∷ []
levels (String.◌∷◌ c s) =
    let rest = levels s in if eqb (code c) b'/' then "" ∷ rest else onto_first c rest

-- No character of the text is a slash.
unfoldable pub slash_free : String → Bool
slash_free String.[] = true
slash_free (String.◌∷◌ c s) = not (eqb (code c) b'/') && slash_free s

levels-slash :
    (s t : String) → slash_free s ≡ true → levels (text_append s (text_append "/" t)) ≡ s ∷ levels t
unfolding levels slash_free
levels-slash String.[] t h =
    ap levels (nil-append (text_append "/" t))
    ∙ ap levels (cons-append "/" "" t)
    ∙ (rw (nil-append t))
levels-slash (String.◌∷◌ c s) t h =
    ap levels (cons-append c s (text_append "/" t))
    ∙ (rw (levels-slash s t (ground (arith, h))) (ground (arith, h)))

levels_last : (s : String) → slash_free s ≡ true → levels s ≡ s ∷ []
unfolding levels slash_free
levels_last String.[] h = refl
levels_last (String.◌∷◌ c s) h = rw (levels_last s (ground (arith, h))) (ground (arith, h))

segment_tail-slash_free : (s : String) → segment_tail b'-' s ≡ true → slash_free s ≡ true
unfolding segment_tail is_lower is_digit slash_free
segment_tail-slash_free String.[] h = refl
segment_tail-slash_free (String.◌∷◌ c s) h = ground (arith, segment_tail-slash_free s)

pub segment-slash_free : (s : String) → is_segment s ≡ true → slash_free s ≡ true
unfolding is_segment matches_pattern is_lower slash_free
segment-slash_free String.[] h = refl
segment-slash_free (String.◌∷◌ c s) h = ground (arith, segment_tail-slash_free s)

-- The levels before a purpose's own.
abbrev pub below : Registry → List String → List String
below r rest = "aquaos" ∷ r.site_id ∷ "v1" ∷ rest

pub levels-root :
    (r : Registry) (t : String)
    → is_segment r.site_id ≡ true
    → levels (text_append (root r) (text_append "/" t)) ≡ below r (levels t)
unfolding slash_free
levels-root r t h =
    let z = text_append "/" t in
    let inner =
      append_assoc r.site_id "/v1" z ∙ ap (text_append r.site_id) (append_assoc "/" "v1" z) in
    let tail = text_append "v1" z in
    ap levels (
      append_assoc "aquaos/" (text_append r.site_id "/v1") z
      ∙ ap (text_append "aquaos/") inner
      ∙ append_assoc "aquaos" "/" (text_append r.site_id (text_append "/" tail)))
    ∙ levels-slash "aquaos" (text_append r.site_id (text_append "/" tail)) refl
    ∙ ap (λ (ls : List String). "aquaos" ∷ ls)
        (levels-slash r.site_id tail (segment-slash_free r.site_id h)
          ∙ ap (λ (ls : List String). r.site_id ∷ ls) (levels-slash "v1" t refl))

levels-under :
    (r : Registry) (x kind leaf before after : String)
    → is_segment r.site_id ≡ true
    → is_segment x ≡ true
    → slash_free kind ≡ true
    → slash_free leaf ≡ true
    → before ≡ text_append "/" (text_append kind "/")
    → after ≡ text_append "/" leaf
    → levels (text_append (root r) (text_append before (text_append x after)))
      ≡ below r (kind ∷ x ∷ leaf ∷ [])
levels-under r x kind leaf before after site segment plain plain_leaf q p =
    rw (q, p)
      (ap (λ (z : String). levels (text_append (root r) z))
          (append_assoc "/" (text_append kind "/") (text_append x (text_append "/" leaf))
            ∙ ap (text_append "/") (append_assoc kind "/" (text_append x (text_append "/" leaf))))
        ∙ levels-root r (text_append kind (text_append "/" (text_append x (text_append "/" leaf))))
            site
        ∙ ap (below r) (
            levels-slash kind (text_append x (text_append "/" leaf)) plain
            ∙ ap (λ (ls : List String). kind ∷ ls)
                (levels-slash x leaf (segment-slash_free x segment)
                  ∙ ap (λ (ls : List String). x ∷ ls) (levels_last leaf plain_leaf))))

-- The levels of each purpose.
abbrev pub own_levels : Purpose → String → List String
own_levels core_status x = "system" ∷ "core" ∷ "status" ∷ []
own_levels availability x = "system" ∷ "core" ∷ "availability" ∷ []
own_levels sensor_state x = "sensors" ∷ x ∷ "state" ∷ []
own_levels equipment_reported x = "equipment" ∷ x ∷ "reported" ∷ []
own_levels equipment_desired x = "equipment" ∷ x ∷ "desired" ∷ []
own_levels command_request x = "commands" ∷ x ∷ "request" ∷ []
own_levels command_result x = "commands" ∷ x ∷ "result" ∷ []
own_levels alarm_state x = "alarms" ∷ x ∷ "state" ∷ []
own_levels event_stream x = "events" ∷ x ∷ []
own_levels _ x = []

name_of :
    {s t : String} {p q : Policy}
    → ◌≡◌ {A = Result (String × Policy)} (ok (s, p)) (ok (t, q))
    → s ≡ t
name_of h = ap (λ (b : String × Policy). b.0) (ok-injective h)

err-ok : {x : Error} {b : String × Policy} → ◌≡◌ {A = Result (String × Policy)} (err x) (ok b) → ⊥
err-ok h = cc

topic_of-levels :
    (r : Registry) (p : Purpose) (x t : String) (policy : Policy)
    → is_segment r.site_id ≡ true
    → is_segment x ≡ true
    → topic_of r p x ≡ ok (t, policy)
    → levels t ≡ below r (own_levels p x)
unfolding topic_of levels slash_free
topic_of-levels r core_status x t policy site segment h =
    rw (← name_of h) (levels-root r "system/core/status" site)
topic_of-levels r availability x t policy site segment h =
    rw (← name_of h) (levels-root r "system/core/availability" site)
topic_of-levels r sensor_state x t policy site segment h =
    rw (← name_of h)
      (levels-under r x "sensors" "state" "/sensors/" "/state" site segment refl refl refl refl)
topic_of-levels r equipment_reported x t policy site segment h = rw (← name_of h) (
    levels-under r x "equipment" "reported" "/equipment/" "/reported" site segment refl refl refl
      refl)
topic_of-levels r equipment_desired x t policy site segment h = rw (← name_of h) (
    levels-under r x "equipment" "desired" "/equipment/" "/desired" site segment refl refl refl
      refl)
topic_of-levels r command_request x t policy site segment h =
    rw (← name_of h) (
      levels-under r x "commands" "request" "/commands/" "/request" site segment refl refl refl
        refl)
topic_of-levels r command_result x t policy site segment h =
    rw (← name_of h)
      (levels-under r x "commands" "result" "/commands/" "/result" site segment refl refl refl refl)
topic_of-levels r alarm_state x t policy site segment h =
    rw (← name_of h)
      (levels-under r x "alarms" "state" "/alarms/" "/state" site segment refl refl refl refl)
topic_of-levels r event_stream x t policy site segment h = rw (← name_of h) (
    ap (λ (z : String). levels (text_append (root r) z))
      (append_assoc "/" "events/" x ∙ ap (text_append "/") (append_assoc "events" "/" x))
    ∙ levels-root r (text_append "events" (text_append "/" x)) site
    ∙ ap (below r) (
        levels-slash "events" x refl
        ∙ ap (λ (ls : List String). "events" ∷ ls) (levels_last x (segment-slash_free x segment))))
topic_of-levels r ai_observation x t policy site segment h = cc
topic_of-levels r ha_discovery x t policy site segment h = cc
topic_of-levels r ha_command x t policy site segment h = cc
topic_of-levels r (other_purpose s) x t policy site segment h = cc

-- A registry of a valid site names a topic only for a resource of one valid segment, and its levels
-- are those of the contract.
pub topic-levels :
    (r : Registry) (p : Purpose) (x t : String) (policy : Policy)
    → is_segment r.site_id ≡ true
    → topic r p x ≡ ok (t, policy)
    → (is_segment x ≡ true) × (levels t ≡ below r (own_levels p x))
unfolding topic
topic-levels r p x t policy site h = elim (Bool-cases (has_reserved x || not (is_segment x))) [
  | inl bad ↦ absurd (err-ok (rw bad at h))
  | inr good ↦
      let segment : is_segment x ≡ true = ground (arith, good) in
      (segment, topic_of-levels r p x t policy site segment (rw good at h))
]
