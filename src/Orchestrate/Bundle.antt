-- ===== src/Orchestrate/Bundle.antt =====
-- The files that every role call is given: `Bundle` of privibe/core/orchestrate/snapshot.py.
pub mod Back
use Prim.Native.String.{◌++◌}
use privibe.Prelude.{String, Option, none, some, List, [], ◌∷◌, ◌==◌, if◌then◌else◌, same_text}

pub record Bundle : Type 0 where
  pub paths : List String
  pub contents : List (String × String)

-- `contents.get(path)`
unfoldable pub lookup {ℓ} : {A : Type ℓ} → String → List (String × A) → Option A
lookup path [] = none
lookup path ((p, a) ∷ rest) = let found = lookup path rest in if p == path then some a else found

-- The files of a world: what a listed file holds now, if it can be read, and what a write or a
-- removal does.
pub record Files (W : Type 0) : Type 0 where
  pub read_current : String → W → Option String
  pub put_file : String → Option String → W → W
  pub render_file : String → String → String
  pub render_changed_file : String → String → String → String

-- `self.contents[path]`, of a file that was loaded.
abbrev content_of : Bundle → String → String
content_of b path = elim (lookup path b.contents) [ none ↦ "" | some content ↦ content ]

module _ {W : Type 0} (f : Files W) where
  unfoldable pub render_all : Bundle → List String → String
  unfolding lookup
  render_all b [] = ""
  render_all b (p ∷ ps) = f.render_file p (content_of b p) ++ render_all b ps

  unfoldable pub render_frozen : Bundle → String
  unfolding render_all
  render_frozen b = render_all b b.paths

  unfoldable pub changed_from : Bundle → List String → W → List String
  unfolding lookup
  changed_from b [] w = []
  changed_from b (p ∷ ps) w =
      let rest = changed_from b ps w in
      if same_text (f.read_current p w) (some (content_of b p)) then rest else p ∷ rest

  unfoldable pub changed_files : Bundle → W → List String
  unfolding changed_from
  changed_files b w = changed_from b b.paths w

  unfoldable pub current_of : List String → W → List (String × Option String)
  current_of [] w = []
  current_of (p ∷ ps) w = (p, f.read_current p w) ∷ current_of ps w

  unfoldable pub current_contents : Bundle → W → List (String × Option String)
  unfolding current_of
  current_contents b w = current_of b.paths w

  -- The paths that changed on the disk, and the world afterwards.
  unfoldable pub restore_from : List (String × Option String) → List String → W → List String × W
  unfolding lookup
  restore_from contents [] w = ([], w)
  restore_from contents (p ∷ ps) w = elim (lookup p contents) [
    | none ↦ restore_from contents ps w
    | some wanted ↦
        let same : List String × W = restore_from contents ps w in
        let put : List String × W = restore_from contents ps (f.put_file p wanted w) in
        if same_text wanted (f.read_current p w) then same else (p ∷ put.0, put.1)
  ]

  unfoldable pub restore_files : Bundle → List (String × Option String) → W → List String × W
  unfolding restore_from
  restore_files b contents w = restore_from contents b.paths w

  unfoldable pub render_each : Bundle → List String → W → String
  unfolding lookup
  render_each b [] w = ""
  render_each b (p ∷ ps) w =
      elim (f.read_current p w) [
        | none ↦ "### " ++ (p ++ " (deleted)\n")
        | some current ↦ f.render_changed_file p (content_of b p) current
      ]
      ++ render_each b ps w

  unfoldable pub render_changed : Bundle → W → String
  unfolding changed_files render_each
  render_changed b w = render_each b (changed_files b w) w
