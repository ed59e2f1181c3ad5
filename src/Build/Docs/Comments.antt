-- ===== src/Build/Docs/Comments.antt =====
-- The documentation that the build script writes before a method (build/commands.rs).
use reql.Base.{
  Text, codes, starts_with, Bool, true, false, Option, none, some, List, [], ◌∷◌, ◌++◌, map,
  append-nil, append_assoc, if◌then◌else◌, All, All-append, ◌≡◌, ◌≢◌, refl, ap, ◌∙◌, sym,
}
use reql.Build.Strings.{concat, lines, is_empty, is_dot, trim, split_dot}
use reql.Build.Docs.{
  comment, fixup, Docs, no_docs, end_title, before_parse, mark_no_args, doc_line, doc_lines, below,
  all_below, gen_docs,
}
use reql.Build.Docs.Lines.{
  IsLine, IsLine_literal, All-trim, All-trim_left, fixup-IsLine, BothLines, split_dot-BothLines,
}

abbrev pub as_comment : Text → Text
as_comment line = codes "///" ++ (line ++ codes "\n")

-- Lines that all start with `///`.
pub record AreComments (s : Text) : Type 0 where
  pub lines : List Text
  pub written : s ≡ concat (map as_comment lines)
  pub one_line : All IsLine lines

concat-append :
    (ls ms : List Text)
    → concat (map as_comment (ls ++ ms)) ≡ concat (map as_comment ls) ++ concat (map as_comment ms)
concat-append [] ms = refl
concat-append (l ∷ ls) ms =
    ap (λ t. as_comment l ++ t) (concat-append ls ms)
    ∙ sym (append_assoc (as_comment l) (concat (map as_comment ls)) (concat (map as_comment ms)))

AreComments-nil : AreComments []
AreComments-nil = record { lines = []; written = refl; one_line = tt }

AreComments-append : (s t : Text) → AreComments s → AreComments t → AreComments (s ++ t)
AreComments-append s t h k = record {
  lines = h.lines ++ k.lines;
  written = rw (concat-append h.lines k.lines, h.written, k.written) refl;
  one_line = All-append IsLine h.lines k.lines h.one_line k.one_line;
}

AreComments-as_comment : (l : Text) → IsLine l → AreComments (as_comment l)
AreComments-as_comment l h = record {
  lines = l ∷ [];
  written = sym (append-nil (as_comment l));
  one_line = (h, tt);
}

AreComments-comment : (l : Text) → IsLine l → AreComments (comment l)
AreComments-comment l h = AreComments-as_comment (32 ∷ l) ((IsLine_literal (32 ∷ []) refl).0, h)

AreComments-below : (l : Text) → IsLine l → AreComments (below l)
AreComments-below [] h = AreComments-nil
AreComments-below (c ∷ cs) h =
    AreComments-append (codes "///\n") (comment (c ∷ cs)) (AreComments-as_comment [] tt)
      (AreComments-comment (c ∷ cs) h)

AreComments-all_below : (s : Text) → AreComments s → AreComments (all_below s)
AreComments-all_below [] h = AreComments-nil
AreComments-all_below (c ∷ cs) h =
    AreComments-append (codes "///\n") (c ∷ cs) (AreComments-as_comment [] tt) h

-- What has been kept is comments and lines.
record IsTidy (d : Docs) : Type 0 where
  doc_str : AreComments d.doc_str
  img : IsLine d.img
  next_line : IsLine d.next_line

IsTidy-end_title :
    (d : Docs) (line : Text) (o : Option (Text × Text))
    → IsTidy d
    → IsLine line
    → BothLines o
    → IsTidy (end_title d line o)
IsTidy-end_title d line (some (t, n)) h l (k, k') = record {
  doc_str = AreComments-append d.doc_str (comment t) h.doc_str (AreComments-comment t k);
  img = h.img;
  next_line = All-trim (λ c. c ≢ 10) _ (All-trim_left (λ c. c ≢ 10) is_dot n k');
}
IsTidy-end_title d line none h l k = record {
  doc_str = AreComments-append d.doc_str (comment line) h.doc_str (AreComments-comment line l);
  img = h.img;
  next_line = h.next_line;
}

IsTidy-if : (b : Bool) (d e : Docs) → IsTidy d → IsTidy e → IsTidy (if b then d else e)
IsTidy-if true d e h k = h
IsTidy-if false d e h k = k

IsTidy-before_parse :
    (d : Docs) (line : Text) → IsTidy d → IsLine line → IsTidy (before_parse d line)
IsTidy-before_parse d line h l = IsTidy-if (is_empty (trim line)) d _ h (
    IsTidy-if (starts_with (codes "<img src=") line) _ _
      (record { doc_str = h.doc_str; img = l; next_line = h.next_line })
      (IsTidy-if d.doc_block _ _
        (IsTidy-end_title d line (split_dot line) h l (split_dot-BothLines line l))
        (IsTidy-if (starts_with (codes "# Description #") line) _ d
          (record { doc_str = h.doc_str; img = h.img; next_line = h.next_line }) h)))

doc_lines-AreComments :
    (cmd : Text) (d : Docs) (ls : List Text)
    → IsTidy d
    → IsTidy (doc_lines cmd d ls).0 × AreComments (doc_lines cmd d ls).1
unfolding doc_lines
doc_lines-AreComments cmd d [] h = (h, AreComments-nil)
doc_lines-AreComments cmd d (line ∷ ls) h =
    either d.parse (mark_no_args cmd line d) (λ d'. doc_lines cmd d' ls)
      (record { doc_str = h.doc_str; img = h.img; next_line = h.next_line })
      (λ d' h'. doc_lines-AreComments cmd d' ls h')
  where
    either :
        (b : Bool) (e : Docs) (more : Docs → Docs × Text)
        → IsTidy e
        → ((e' : Docs) → IsTidy e' → IsTidy (more e').0 × AreComments (more e').1)
        → IsTidy (doc_line b e (fixup line) more).0 × AreComments (doc_line b e (fixup line) more).1
    either true e more k m =
        let (tidy, comments) = m e k in
        (tidy, AreComments-append _ _ (AreComments-comment _ (fixup-IsLine line)) comments)
    either false e more k m =
        m (before_parse e (fixup line)) (IsTidy-before_parse e _ k (fixup-IsLine line))

-- Whatever the documentation of a command says, what is written before its method is lines that all
-- start with `///`.
pub gen_docs-AreComments : (name docs : Text) → AreComments (gen_docs name docs).1
unfolding gen_docs
gen_docs-AreComments name docs =
    let r = doc_lines (name ++ codes "()") no_docs (lines docs) in
    let (h, body) =
      doc_lines-AreComments (name ++ codes "()") no_docs (lines docs)
        (record { doc_str = AreComments-nil; img = tt; next_line = tt }) in
    AreComments-append _ _
      (AreComments-append _ _ (AreComments-append _ _ h.doc_str (AreComments-below r.0.img h.img))
        (AreComments-below r.0.next_line h.next_line))
      (AreComments-all_below r.1 body)
