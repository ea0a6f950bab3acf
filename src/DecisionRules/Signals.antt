-- ===== src/DecisionRules/Signals.antt =====
-- The conditions that a rule may test, each with the phrases of a query that switch it on.
use package.true.Dict.{Dict, get_or, has_key}
use package.true.Prelude.{Bool, List, String, [], any, map, ◌||◌, ◌∷◌}
use package.true.Text.{Text, lit, ◌==◌}
use package.true.Text.Phrase.{has_phrase}

abbrev signals : String → List String → Text × List Text
signals condition phrases = (lit condition, map lit phrases)

-- CONDITION_SIGNALS
unfoldable pub condition_signals : Dict (List Text)
condition_signals =
    signals "if_booking" ("booking" ∷ "appointment" ∷ "calendar" ∷ [])
    ∷ signals "if_boutique" ("boutique" ∷ [])
    ∷ signals "if_casual" ("casual" ∷ "playful" ∷ [])
    ∷ signals "if_checkout" ("checkout" ∷ "payment" ∷ "purchase" ∷ [])
    ∷ signals "if_children" ("child" ∷ "children" ∷ "kids" ∷ [])
    ∷ signals "if_collaboration" ("collaboration" ∷ "multiplayer" ∷ "co-edit" ∷ [])
    ∷ signals "if_competitive" ("competitive" ∷ "leaderboard" ∷ [])
    ∷ signals "if_content_focused" ("content" ∷ "article" ∷ "reading" ∷ "documentation" ∷ [])
    ∷ signals "if_conversion_focused" ("conversion" ∷ "sales" ∷ "signup" ∷ "purchase" ∷ [])
    ∷ signals "if_creative_field" ("creative" ∷ "artist" ∷ "portfolio" ∷ [])
    ∷ signals "if_crop_focused" ("crop" ∷ "farm" ∷ "agriculture" ∷ [])
    ∷ signals "if_dashboard" ("dashboard" ∷ "operations" ∷ "monitoring" ∷ [])
    ∷ signals "if_data_heavy" ("data heavy" ∷ "data-heavy" ∷ "analytics" ∷ "large dataset" ∷ [])
    ∷ signals "if_delivery" ("delivery" ∷ "courier" ∷ "shipping" ∷ [])
    ∷ signals "if_discovery_focused" ("discover" ∷ "discovery" ∷ "browse" ∷ "directory" ∷ [])
    ∷ signals "if_engagement_metric" ("engagement" ∷ "retention" ∷ "contribution" ∷ [])
    ∷ signals "if_experience_focused" ("experience" ∷ "immersive" ∷ "journey" ∷ [])
    ∷ signals "if_gamification" ("gamification" ∷ "badges" ∷ "streak" ∷ [])
    ∷ signals "if_health" ("health" ∷ "medical" ∷ "patient" ∷ [])
    ∷ signals "if_hero_needed" ("hero" ∷ "showcase" ∷ "launch" ∷ [])
    ∷ signals "if_large_dataset" ("large dataset" ∷ "thousands" ∷ "millions" ∷ [])
    ∷ signals "if_light_mode_needed" ("light mode" ∷ "light theme" ∷ [])
    ∷ signals "if_low_performance" ("low performance" ∷ "low-end" ∷ "slow device" ∷ [])
    ∷ signals "if_luxury" ("luxury" ∷ "premium" ∷ "high-end" ∷ [])
    ∷ signals "if_medication" ("medication" ∷ "medicine" ∷ "prescription" ∷ [])
    ∷ signals "if_meditation" ("meditation" ∷ "breathing" ∷ "mindfulness" ∷ [])
    ∷ signals "if_minimal_portfolio" ("minimal portfolio" ∷ "simple portfolio" ∷ [])
    ∷ signals "if_mobile" ("mobile" ∷ "phone" ∷ "tablet" ∷ "ios" ∷ "android" ∷ [])
    ∷ signals "if_personalized" ("personalized" ∷ "personalised" ∷ "recommendation" ∷ [])
    ∷ signals "if_pre_launch" ("pre-launch" ∷ "prelaunch" ∷ "coming soon" ∷ "waitlist" ∷ [])
    ∷ signals "if_salary_focused" ("salary" ∷ "compensation" ∷ "pay range" ∷ [])
    ∷ signals "if_team_collaboration" ("team collaboration" ∷ "team workspace" ∷ [])
    ∷ signals "if_trust_needed" ("trust" ∷ "secure" ∷ "verified" ∷ "authority" ∷ [])
    ∷ signals "if_ux_focused" ("ux" ∷ "usability" ∷ "accessibility" ∷ "accessible" ∷ [])
    ∷ signals "if_video_ready" ("video ready" ∷ "product video" ∷ "demo video" ∷ [])
    ∷ []

-- ALLOWED_CONDITIONS
unfoldable pub is_allowed : Text → Bool
is_allowed condition = condition == lit "must_have" || has_key condition_signals condition

-- CONDITION_PATTERNS.get(condition, ()), each pattern searched for in the text
unfoldable pub signalled : Text → Text → Bool
signalled condition text = any (λ p. has_phrase p text) (get_or condition_signals condition [])
