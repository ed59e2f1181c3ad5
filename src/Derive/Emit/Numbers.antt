-- ===== src/Derive/Emit/Numbers.antt =====
-- The numbers that `args!` gives the parameters of a closure (derive/src/args.rs), and the variables
-- that src/macros.rs makes of them.
use reql.Base.{ℕ, zero, suc, Text, List, [], ◌∷◌}
use reql.Commands.Client.{Client}
use reql.Derive.Tokens.{or, ident, token, Trees, a_tree}

-- `|p q …| body` as the macro keeps it: the commas between the parameters are dropped.
abbrev parameters : List Text → Trees → Trees
parameters [] body = a_tree (token or) body
parameters (p ∷ ps) body = a_tree (token (ident p)) (parameters ps body)

abbrev pub closure_tokens : List Text → Trees → Trees
closure_tokens ps body = a_tree (token or) (parameters ps body)

-- So many numbers in their order, from the first on.
abbrev pub count : ℕ → ℕ → List ℕ
count i zero = []
count i (suc n) = i ∷ count (suc i) n
