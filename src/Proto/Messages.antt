-- ===== src/Proto/Messages.antt =====
-- The messages `Datum` and `Term` of ql2, in the shape in which the driver uses them.
-- An optional field of a message is an `Option`, a repeated one a list. Where the driver reads only
-- the value of a field and never its presence, the field is that value: a message starts with its
-- default. A double is its 64-bit pattern.
use reql.Base.{ℕ, Text, Bool, true, false, Option, none, some, codes}
use reql.Proto.Commands.{Command}

pub data DatumType : Type 0 where
  r_null r_bool r_num r_str r_array r_object r_json : DatumType

-- `Datum` : type, r_bool, r_num, r_str, r_array, r_object.
mutual
  pub data Datum : Type 0 where
    datum : Option DatumType → Bool → ℕ → Text → Datums → DatumPairs → Datum

  pub data Datums : Type 0 where
    no_datums : Datums
    a_datum : Datum → Datums → Datums

  pub data DatumPairs : Type 0 where
    no_datum_pairs : DatumPairs
    datum_pair : Text → Datum → DatumPairs → DatumPairs

-- The four term types that the driver names itself, and those of the commands.
pub data TermType : Type 0 where
  data_term make_array var func : TermType
  command : Command → TermType

-- `Term` : type, datum, args, optargs.
mutual
  pub data Term : Type 0 where
    term : Option TermType → Option Datum → Terms → TermPairs → Term

  pub data Terms : Type 0 where
    no_terms : Terms
    a_term : Term → Terms → Terms

  pub data TermPairs : Type 0 where
    no_pairs : TermPairs
    a_pair : Text → Term → TermPairs → TermPairs

-- `Datum::new()` and `Term::new()`.
abbrev pub new_datum : Datum
new_datum = datum none false 0 (codes "") no_datums no_datum_pairs

abbrev pub new_term : Term
new_term = term none none no_terms no_pairs

-- `get_field_type()` of an unset type is the first variant.
abbrev pub datum_type : Option DatumType → DatumType
datum_type none = DatumType.r_null
datum_type (some t) = t

abbrev pub term_type : Option TermType → TermType
term_type none = data_term
term_type (some t) = t

-- `term.get_args()`, `term.has_field_type()`, `term.take_datum()`
abbrev pub args_of : Term → Terms
args_of (term ty d ts ps) = ts

abbrev pub optargs_of : Term → TermPairs
optargs_of (term ty d ts ps) = ps

abbrev pub has_field_type : Term → Bool
has_field_type (term none d ts ps) = false
has_field_type (term (some ty) d ts ps) = true

abbrev pub take_datum : Term → Datum
take_datum (term ty none ts ps) = new_datum
take_datum (term ty (some d) ts ps) = d

-- `term == Term::new()`
abbrev pub is_new : Term → Bool
is_new (term none none no_terms no_pairs) = true
is_new _ = false

-- `term.mut_args().push(arg)`, `term.mut_optargs().push(pair)`
abbrev pub push_terms : Terms → Term → Terms
push_terms no_terms t = a_term t no_terms
push_terms (a_term u us) t = a_term u (push_terms us t)

abbrev pub push_pairs : TermPairs → Text → Term → TermPairs
push_pairs no_pairs k v = a_pair k v no_pairs
push_pairs (a_pair j u ps) k v = a_pair j u (push_pairs ps k v)

abbrev pub push_arg : Term → Term → Term
push_arg (term ty d ts ps) t = term ty d (push_terms ts t) ps

abbrev pub push_optarg : Term → Text → Term → Term
push_optarg (term ty d ts ps) k v = term ty d ts (push_pairs ps k v)

-- What the driver takes from ql2 and from the formatting of doubles: the number of a term type, the
-- text of a double, and a number as a double.
pub record Formats : Type 0 where
  pub term_value : TermType → ℕ
  pub format_f64 : ℕ → Text
  pub f64_of : ℕ → ℕ
