-- ===== src/Commands/Client/Wire.antt =====
-- What a call adds to the wire form of a query.
use mathlib.Core.Option.{some-injective}
use reql.Base.{
  Text, Option, none, some, ◌>>=◌, >>=-eq-some, Bool-cases, inl, inr, ◌≡◌, refl, ◌∙◌, ap, sym,
  if◌then◌else◌,
}
use reql.Errors.{ok}
use reql.Proto.{
  Formats, Term, Terms, TermPairs, TermType, command, term, no_terms, a_term, no_pairs, a_pair,
  push_terms, push_pairs, is_new,
}
use reql.Proto.Commands.{Command}
use reql.Types.Json.{Jsons, Fields, arr, obj, int, nil, cons, end, field, ◌+++◌}
use reql.Types.Wire.{
  not_empty, single, wire, wire_args, wire_pairs, wire_args_part, wire_optargs_part,
}
use reql.Types.Correct.{+++-nil, +++_assoc, plain_then-eq-some, args-not_empty}
use reql.Commands.Arg.{Arg}
use reql.Commands.Client.{Client, make_cmd, splice_args, start_term, push_all_terms, push_all_pairs}

append_terms : Terms → Terms → Terms
append_terms no_terms us = us
append_terms (a_term t ts) us = a_term t (append_terms ts us)

append_terms-nil : (ts : Terms) → append_terms ts no_terms ≡ ts
unfolding append_terms
append_terms-nil no_terms = refl
append_terms-nil (a_term t ts) = rw (append_terms-nil ts)

append_terms-push :
    (ts : Terms) (u : Term) (us : Terms)
    → append_terms (push_terms ts u) us ≡ append_terms ts (a_term u us)
unfolding append_terms
append_terms-push no_terms u us = refl
append_terms-push (a_term t ts) u us = rw (append_terms-push ts u us)

push_terms-append : (ts : Terms) (u : Term) → push_terms ts u ≡ append_terms ts (a_term u no_terms)
push_terms-append ts u = sym (append_terms-nil (push_terms ts u)) ∙ append_terms-push ts u no_terms

push_all_terms-append : (ts us : Terms) → push_all_terms ts us ≡ append_terms ts us
push_all_terms-append ts no_terms = sym (append_terms-nil ts)
push_all_terms-append ts (a_term u us) =
    push_all_terms-append (push_terms ts u) us ∙ append_terms-push ts u us

append_pairs : TermPairs → TermPairs → TermPairs
append_pairs no_pairs qs = qs
append_pairs (a_pair k v ps) qs = a_pair k v (append_pairs ps qs)

append_pairs-nil : (ps : TermPairs) → append_pairs ps no_pairs ≡ ps
unfolding append_pairs
append_pairs-nil no_pairs = refl
append_pairs-nil (a_pair k v ps) = rw (append_pairs-nil ps)

append_pairs-push :
    (ps : TermPairs) (k : Text) (v : Term) (qs : TermPairs)
    → append_pairs (push_pairs ps k v) qs ≡ append_pairs ps (a_pair k v qs)
unfolding append_pairs
append_pairs-push no_pairs k v qs = refl
append_pairs-push (a_pair j u ps) k v qs = rw (append_pairs-push ps k v qs)

push_all_pairs-append : (ps qs : TermPairs) → push_all_pairs ps qs ≡ append_pairs ps qs
push_all_pairs-append ps no_pairs = sym (append_pairs-nil ps)
push_all_pairs-append ps (a_pair k v qs) =
    push_all_pairs-append (push_pairs ps k v) qs ∙ append_pairs-push ps k v qs

-- The arguments and options of a command as JSON: an empty list is left out.
abbrev pub array_of : Jsons → Jsons
array_of nil = nil
array_of (cons j js) = cons (arr (cons j js)) nil

abbrev pub object_of : Fields → Jsons
object_of end = nil
object_of (field k j fs) = cons (obj (field k j fs)) nil

module _ (f : Formats) where
  -- What a command is called on: nothing for a new client.
  abbrev pub receiver : Term → Option Jsons
  receiver t = if is_new t then some nil else (wire f t >>= not_empty)

  -- The arguments that a term stands for: itself if it has a type, else its parts.
  abbrev pub argument : Term → Option (Jsons × Fields)
  argument (term none d ts ps) = do js ← wire_args f ts; fs ← wire_pairs f ps; some (js, fs)
  argument (term (some ty) d ts ps) = do
    js ← wire f (term (some ty) d ts ps)
    ks ← not_empty js
    some (ks, end)

  args-array :
      (ty : TermType) (ts : Terms) (js : Jsons)
      → wire_args f ts ≡ some js
      → wire_args_part (some ty) ts js ≡ array_of js
  unfolding wire
  args-array ty no_terms js h = ap array_of (some-injective _ _ h)
  args-array ty (a_term t ts) nil h = let (j, ks, q) = args-not_empty f t ts nil h in cc
  args-array ty (a_term t ts) (cons j js) h = refl

  optargs-object :
      (ps : TermPairs) (fs : Fields)
      → wire_pairs f ps ≡ some fs
      → wire_optargs_part ps fs ≡ object_of fs
  unfolding wire
  optargs-object no_pairs fs h = ap object_of (some-injective _ _ h)
  optargs-object (a_pair k v ps) end h =
      let (own, e, e') = >>=-eq-some (wire f v) _ h in
      let (j, i, i') = >>=-eq-some (single own) _ e' in
      let (gs, z, z') = >>=-eq-some (wire_pairs f ps) _ i' in
      let (q, w) = plain_then-eq-some k (some (field k j gs)) z' in cc
  optargs-object (a_pair k v ps) (field j u fs) h = refl

  pub command-wire :
      (k : Command) (ts : Terms) (ps : TermPairs) (js : Jsons) (fs : Fields)
      → wire_args f ts ≡ some js
      → wire_pairs f ps ≡ some fs
      → wire f (term (some (command k)) none ts ps)
        ≡ some
            (cons (arr (cons (int (f.term_value (command k))) (array_of js +++ object_of fs))) nil)
  unfolding wire
  command-wire k ts ps js fs h h' =
      rw (h, h', args-array (command k) ts js h, optargs-object ps fs h')

  args-append :
      (ts us : Terms) (js ks : Jsons)
      → wire_args f ts ≡ some js
      → wire_args f us ≡ some ks
      → wire_args f (append_terms ts us) ≡ some (js +++ ks)
  unfolding wire append_terms
  args-append no_terms us js ks h h' = h' ∙ ap (λ m. some (m +++ ks)) (some-injective _ _ h)
  args-append (a_term t ts) us js ks h h' =
      let (own, e, e') = >>=-eq-some (wire f t) _ h in
      let (ls, i, i') = >>=-eq-some (not_empty own) _ e' in
      let (rest, z, z') = >>=-eq-some (wire_args f ts) _ i' in
      rw (e, i, args-append ts us rest ks z h')
        (ap some (sym (+++_assoc ls rest ks) ∙ ap (λ m. m +++ ks) (some-injective _ _ z')))

  lone-args :
      (t : Term) (rs : Jsons)
      → (wire f t >>= not_empty) ≡ some rs
      → wire_args f (a_term t no_terms) ≡ some rs
  unfolding wire
  lone-args t rs h =
      let (own, e, e') = >>=-eq-some (wire f t) _ h in rw (e, e') (ap some (+++-nil rs))

  pub receiver-args :
      (t : Term) (rs : Jsons)
      → receiver t ≡ some rs
      → wire_args f (if is_new t then no_terms else a_term t no_terms) ≡ some rs
  unfolding wire
  receiver-args t rs h = elim (Bool-cases (is_new t)) [
    | inl new ↦ rw new (rw new at h)
    | inr old ↦ rw old (lone-args t rs (rw old at h))
  ]

  -- The parts of a spliced call, before they are put into a command.
  splice_args-wire :
      (k : Command) (ts : Terms) (a : Term) (rs js : Jsons) (fs : Fields)
      → wire_args f ts ≡ some rs
      → argument a ≡ some (js, fs)
      → wire f (splice_args (term (some (command k)) none ts no_pairs) a)
        ≡ some (
            cons
              (arr (cons (int (f.term_value (command k))) (array_of (rs +++ js) +++ object_of fs)))
              nil)
  unfolding splice_args append_pairs wire
  splice_args-wire k ts (term none d us qs) rs js fs h h' =
      let (ks, e, e') = >>=-eq-some (wire_args f us) _ h' in
      let (gs, i, i') = >>=-eq-some (wire_pairs f qs) _ e' in
      let args : wire_args f us ≡ some js =
        e ∙ ap (λ (p : Jsons × Fields). some p.0) (some-injective _ _ i') in
      let opts : wire_pairs f qs ≡ some fs =
        i ∙ ap (λ (p : Jsons × Fields). some p.1) (some-injective _ _ i') in
      rw (push_all_terms-append ts us, push_all_pairs-append no_pairs qs)
        (command-wire k (append_terms ts us) qs (rs +++ js) fs (args-append ts us rs js h args)
          opts)
  splice_args-wire k ts (term (some ty) d us qs) rs js fs h h' =
      let a = term (some ty) d us qs in
      let (own, e, e') = >>=-eq-some (wire f a) _ h' in
      let (ks, i, i') = >>=-eq-some (not_empty own) _ e' in
      let one : (wire f a >>= not_empty) ≡ some js =
        rw (e, i) (ap (λ (p : Jsons × Fields). some p.0) (some-injective _ _ i')) in
      let none_left : some end ≡ some fs =
        ap (λ (p : Jsons × Fields). some p.1) (some-injective _ _ i') in
      rw push_terms-append (
        command-wire k (append_terms ts (a_term a no_terms)) no_pairs (rs +++ js) fs
          (args-append ts (a_term a no_terms) rs js h (lone-args a js one)) none_left)

  pub make_cmd-wire :
      (c : Client) (name : Text) (k : Command) (arg : Arg) (t a : Term) (rs js : Jsons)
      (fs : Fields)
      → c.term ≡ ok t
      → arg.term ≡ ok a
      → receiver t ≡ some rs
      → argument a ≡ some (js, fs)
      → (u : Term) × ((make_cmd c name (some (command k)) (some arg)).term ≡ ok u)
        × (wire f u
            ≡ some (
                cons
                  (arr
                    (cons (int (f.term_value (command k))) (array_of (rs +++ js) +++ object_of fs)))
                  nil))
  unfolding make_cmd start_term
  make_cmd-wire c name k arg t a rs js fs ct at hr ha = (
    splice_args (start_term (some (command k)) t) a,
    rw (ct, at),
    splice_args-wire k _ a rs js fs (receiver-args t rs hr) ha,
  )
