-- ===== src/Build/Config/Fields.antt =====
-- The fields that the renamings of build/config.rs leave alone.
use reql.Base.{Text, codes, text_eq, Bool, true, false, Option, if◌then◌else◌, ◌≡◌, refl, ◌∙◌}
use reql.Build.Config.{
  Entry, Section, rename_section, is_in, keywords, rename_keyword, rename_command, set_typ,
  move_command, finish,
}

-- A value that both sides of a conditional give.
pub if-both {ℓ κ} :
    {A : Type ℓ} {B : Type κ}
    → (f : A → B) (b : Bool) (x y : A) (c : B) → f x ≡ c
    → f y ≡ c
    → f (if b then x else y) ≡ c
if-both f true x y c h k = h
if-both f false x y c h k = k

abbrev pub link : Entry → Text
link e = e.permalink

abbrev pub given : Entry → Option Text
given e = e.method

rename-link : (e : Entry) → link (rename_command (rename_keyword e)) ≡ link e
rename-link e =
    let k = rename_keyword e in
    let same : link k ≡ link e = if-both link (is_in keywords e.permalink) _ e _ refl refl in
    if-both link (text_eq (codes "to_json_string") k.permalink) _ k _ same same

set_typ-link : (e : Entry) → link (set_typ e) ≡ link e
set_typ-link e =
    if-both link (text_eq (codes "js") e.permalink) _ _ _ refl
      (if-both link (text_eq (codes "do") e.permalink) _ e _ refl refl)

set_typ-given : (e : Entry) → given (set_typ e) ≡ given e
set_typ-given e =
    if-both given (text_eq (codes "js") e.permalink) _ _ _ refl
      (if-both given (text_eq (codes "do") e.permalink) _ e _ refl refl)

move-link : (e : Entry) → link (move_command e) ≡ link e
move-link e = if-both link (text_eq (codes "changes") e.permalink) _ e _ refl refl

move-given : (e : Entry) → given (move_command e) ≡ given e
move-given e = if-both given (text_eq (codes "changes") e.permalink) _ e _ refl refl

pub finish-link : (e : Entry) → link (finish e) ≡ link e
finish-link e =
    let r = rename_command (rename_keyword e) in
    move-link (set_typ r) ∙ (set_typ-link r ∙ rename-link e)

pub finish-given : (e : Entry) → given (finish e) ≡ given (rename_command (rename_keyword e))
finish-given e =
    let r = rename_command (rename_keyword e) in move-given (set_typ r) ∙ set_typ-given r

pub commands-rename : (s : Section) → (rename_section s).commands ≡ s.commands
commands-rename s =
    if-both (λ (t : Section). t.commands) (text_eq s.name (codes "Geospatial commands")) _ _ _ refl
      (if-both (λ (t : Section). t.commands) (text_eq s.name (codes "Accessing ReQL")) _ s _ refl
        refl)
