-- ===== src/Permissions/Commands/Covers.antt =====
-- What is asked for a line of commands: resolve_permission of privibe/core/tools/builtins/bash.py.
use text.Mathlib.TextPositions.{eq_refl}
use mathlib.Core.Path.{subst}
use privibe.Prelude.{
  or-false, ◌≡◌, refl, sym, ap, ◌∙◌, String, Bool, true, false, Option, none, some, List, [], ◌∷◌,
  ◌++◌, ◌⊎◌, inl, inr, ◌&&◌, ◌||◌, ◌==◌, eq_iff, Bool-cases, if◌then◌else◌, All,
}
use privibe.Str.{split, is_in}
use privibe.Arity.{build_session_pattern}
use privibe.Permissions.{RequiredPermission}
use privibe.Permissions.Commands.{
  BashToolConfig, is_allowlisted, is_sensitive, command_permissions, new_permission, seen_after,
  directory_permissions,
}
use privibe.Permissions.Tokens.{Shell, no_texts}

-- Whether a session pattern is asked for.
unfoldable pub has_pattern : String → List RequiredPermission → Bool
has_pattern q [] = false
has_pattern q (r ∷ rs) = r.session_pattern == q || has_pattern q rs

-- Whether a directory is asked for as one that only a human may allow.
unfoldable pub asks_human : String → List RequiredPermission → Bool
asks_human g [] = false
asks_human g (r ∷ rs) = (r.invocation_pattern == g && r.escalated) || asks_human g rs

pub or_later : (a b : Bool) → b ≡ true → (a || b) ≡ true
or_later true b h = refl
or_later false b h = h

or_move : (a b c : Bool) → (b || (a || c)) ≡ true → ((a || b) || c) ≡ true
or_move true b c h = refl
or_move false true c h = refl
or_move false false c h = h

or_more : (a b c : Bool) → (b || c) ≡ true → ((a || b) || c) ≡ true
or_more true b c h = refl
or_more false b c h = h

or_head : (a b c : Bool) → ((a || false) || c) ≡ true → ((a || b) || c) ≡ true
or_head true b c h = refl
or_head false b c h = or_later b c h

or_map : (a : Bool) {b d : Bool} → (b ≡ true → d ≡ true) → (a || b) ≡ true → (a || d) ≡ true
or_map true f h = refl
or_map false f h = f h

module _ (sh : Shell) (c : BashToolConfig) where
  abbrev pub IsAllowed : String → Type 0
  IsAllowed part = (is_sensitive sh c part ≡ false) × (is_allowlisted sh c part ≡ true)

  -- The session pattern of a command, itself if it is sensitive.
  abbrev pub pattern_of : String → String
  pattern_of part = if is_sensitive sh c part then part else build_session_pattern (split part)

  -- A command is blank, or allowed without asking, or its pattern is asked for or was so already.
  abbrev Covers : List String → List RequiredPermission → String → Type 0
  Covers seen rs part =
      (no_texts (split part) ≡ true)
      ⊎ IsAllowed part
      ⊎ ((has_pattern (pattern_of part) rs || is_in (pattern_of part) seen) ≡ true)

  Covers-cons :
      (seen : List String) (r : RequiredPermission) (rs : List RequiredPermission)
      (parts : List String)
      → All (Covers seen rs) parts
      → All (Covers seen (r ∷ rs)) parts
  unfolding has_pattern
  Covers-cons seen r rs [] h = tt
  Covers-cons seen r rs (p ∷ ps) (h, hs) = (
    elim h [
      | inl blank ↦ inl blank
      | inr (inl allowed) ↦ inr (inl allowed)
      | inr (inr e) ↦ inr (inr (or_more (r.session_pattern == pattern_of p) _ _ e))
    ],
    Covers-cons seen r rs ps hs,
  )

  -- What was seen is asked for by the permission in front.
  Covers-seen :
      (seen : List String) (r : RequiredPermission) (rs : List RequiredPermission)
      (parts : List String)
      → All (Covers (r.session_pattern ∷ seen) rs) parts
      → All (Covers seen (r ∷ rs)) parts
  unfolding has_pattern is_in
  Covers-seen seen r rs [] h = tt
  Covers-seen seen r rs (p ∷ ps) (h, hs) = (
    elim h [
      | inl blank ↦ inl blank
      | inr (inl allowed) ↦ inr (inl allowed)
      | inr (inr e) ↦ inr (inr (or_move (r.session_pattern == pattern_of p) _ _ e))
    ],
    Covers-seen seen r rs ps hs,
  )

  -- What the step of one command does to what is asked for and what was seen.
  abbrev Steps : List String → String → Option RequiredPermission → List String → Type 0
  Steps seen part none next = Covers seen [] part × (next ≡ seen)
  Steps seen part (some r) next =
      Covers seen (r ∷ []) part × ((next ≡ seen) ⊎ (next ≡ r.session_pattern ∷ seen))

  new_permission-Steps :
      (seen : List String) (part : String)
      → Steps seen part (new_permission sh c seen part) (seen_after sh c seen part)
  unfolding new_permission seen_after has_pattern
  new_permission-Steps seen part = elim (Bool-cases (no_texts (split part))) [
    | inl blank ↦ rw (new_permission, seen_after, blank) (inl blank, refl)
    | inr words ↦ elim (Bool-cases (is_sensitive sh c part)) [
      | inl sensitive ↦
          rw (new_permission, seen_after, words, sensitive)
            (inr (inr (rw (sensitive, eq_refl part) refl)), inl refl)
      | inr plain ↦ elim (Bool-cases (is_allowlisted sh c part)) [
        | inl allowed ↦
            rw (new_permission, seen_after, words, plain, allowed)
              (inr (inl (plain, allowed)), refl)
        | inr other ↦ elim (Bool-cases (is_in (build_session_pattern (split part)) seen)) [
          | inl known ↦
              rw (new_permission, seen_after, words, plain, other, known)
                (inr (inr (rw (plain, known) refl)), refl)
          | inr fresh ↦
              rw (new_permission, seen_after, words, plain, other, fresh)
                (
                  inr (inr (rw (plain, eq_refl (build_session_pattern (split part))) refl)),
                  inr refl,
                )
        ]
      ]
    ]
  ]

  Covers-more :
      (seen : List String) (rs : List RequiredPermission) (part : String)
      → Covers seen [] part
      → Covers seen rs part
  unfolding has_pattern
  Covers-more seen rs part (inl blank) = inl blank
  Covers-more seen rs part (inr (inl allowed)) = inr (inl allowed)
  Covers-more seen rs part (inr (inr e)) =
      inr (inr (or_later (has_pattern (pattern_of part) rs) _ e))

  Covers-head :
      (seen : List String) (r : RequiredPermission) (rs : List RequiredPermission) (part : String)
      → Covers seen (r ∷ []) part
      → Covers seen (r ∷ rs) part
  unfolding has_pattern
  Covers-head seen r rs part (inl blank) = inl blank
  Covers-head seen r rs part (inr (inl allowed)) = inr (inl allowed)
  Covers-head seen r rs part (inr (inr e)) =
      inr (
        inr (or_head (r.session_pattern == pattern_of part) (has_pattern (pattern_of part) rs) _ e))

  command_permissions-Covers :
      (seen parts : List String) → All (Covers seen (command_permissions sh c seen parts)) parts
  unfolding command_permissions
  command_permissions-Covers seen [] = tt
  command_permissions-Covers seen (part ∷ parts) =
      on (new_permission sh c seen part) (seen_after sh c seen part)
        (new_permission-Steps seen part)
        (command_permissions-Covers (seen_after sh c seen part) parts)
    where
      on :
          (new : Option RequiredPermission) (next : List String)
          → Steps seen part new next
          → All (Covers next (command_permissions sh c next parts)) parts
          → All
              (Covers seen (elim new [
                | none ↦ command_permissions sh c next parts
                | some r ↦ r ∷ command_permissions sh c next parts
              ]))
              (part ∷ parts)
      on none next (h, e) hs =
          let rs = command_permissions sh c next parts in
          (Covers-more seen rs part h, subst (λ n. All (Covers n rs) parts) e hs)
      on (some r) next (h, inl e) hs =
          let rs = command_permissions sh c next parts in
          (
            Covers-head seen r rs part h,
            Covers-cons seen r rs parts (subst (λ n. All (Covers n rs) parts) e hs),
          )
      on (some r) next (h, inr e) hs =
          let rs = command_permissions sh c next parts in
          (
            Covers-head seen r rs part h,
            Covers-seen seen r rs parts (subst (λ n. All (Covers n rs) parts) e hs),
          )

  -- A command is blank, or allowed without asking, or its pattern is asked for.
  abbrev pub IsAsked : List RequiredPermission → String → Type 0
  IsAsked rs part =
      (no_texts (split part) ≡ true) ⊎ IsAllowed part ⊎ (has_pattern (pattern_of part) rs ≡ true)

  has_pattern-append :
      (q : String) (rs ss : List RequiredPermission)
      → has_pattern q rs ≡ true
      → has_pattern q (rs ++ ss) ≡ true
  unfolding has_pattern
  has_pattern-append q [] ss h = cc
  has_pattern-append q (r ∷ rs) ss h =
      or_map (r.session_pattern == q) (has_pattern-append q rs ss) h

  Covers-IsAsked :
      (rs ss : List RequiredPermission) (parts : List String)
      → All (Covers [] rs) parts
      → All (IsAsked (rs ++ ss)) parts
  unfolding is_in
  Covers-IsAsked rs ss [] h = tt
  Covers-IsAsked rs ss (p ∷ ps) (h, hs) = (
    elim h [
      | inl blank ↦ inl blank
      | inr (inl allowed) ↦ inr (inl allowed)
      | inr (inr e) ↦ inr (
          inr (
            has_pattern-append (pattern_of p) rs ss
              (sym (or-false (has_pattern (pattern_of p) rs)) ∙ e)))
    ],
    Covers-IsAsked rs ss ps hs,
  )

  pub command_permissions-IsAsked :
      (parts : List String) (ss : List RequiredPermission)
      → All (IsAsked (command_permissions sh c [] parts ++ ss)) parts
  command_permissions-IsAsked parts ss =
      Covers-IsAsked (command_permissions sh c [] parts) ss parts
        (command_permissions-Covers [] parts)

  pub asks_human-directory_permissions :
      (escalated globs : List String) (g : String)
      → is_in g globs ≡ true
      → is_in g escalated ≡ true
      → asks_human g (directory_permissions sh c escalated globs) ≡ true
  unfolding asks_human directory_permissions is_in
  asks_human-directory_permissions escalated [] g h e = cc
  asks_human-directory_permissions escalated (x ∷ xs) g h e = elim (Bool-cases (x == g)) [
    | inl same ↦
        let eq = (eq_iff x g).0 same in
        rw (asks_human, same, ap (λ y. is_in y escalated) eq ∙ e) refl
    | inr other ↦ or_later (x == g && is_in x escalated) _ (
        asks_human-directory_permissions escalated xs g (ap (λ b. b || is_in g xs) (sym other) ∙ h)
          e)
  ]

  pub asks_human-append :
      (g : String) (rs ss : List RequiredPermission)
      → asks_human g ss ≡ true
      → asks_human g (rs ++ ss) ≡ true
  unfolding asks_human
  asks_human-append g [] ss h = h
  asks_human-append g (r ∷ rs) ss h = or_later _ _ (asks_human-append g rs ss h)

  pub has_pattern-directory_permissions :
      (escalated globs : List String) (g : String)
      → is_in g globs ≡ true
      → has_pattern g (directory_permissions sh c escalated globs) ≡ true
  unfolding has_pattern directory_permissions is_in
  has_pattern-directory_permissions escalated [] g h = cc
  has_pattern-directory_permissions escalated (x ∷ xs) g h =
      or_map (x == g) (has_pattern-directory_permissions escalated xs g) h

  pub has_pattern-append_right :
      (q : String) (rs ss : List RequiredPermission)
      → has_pattern q ss ≡ true
      → has_pattern q (rs ++ ss) ≡ true
  unfolding has_pattern
  has_pattern-append_right q [] ss h = h
  has_pattern-append_right q (r ∷ rs) ss h = or_later _ _ (has_pattern-append_right q rs ss h)
