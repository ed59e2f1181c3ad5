-- ===== src/Derive/Groups/Fuel.antt =====
-- The fuel of `group_by_comma` (derive/src/args.rs).
use reql.Base.{
  [], ◌∷◌, ℕ, zero, suc, ◌≤◌, Text, Bool, true, false, Option, none, some, ◌>>=◌, ◌≡◌, refl, ap,
  arith, if◌then◌else◌, ◌||◌,
}
use reql.Derive.Tokens.{
  or, or_or, comma, colon, ident, str, other, Tree, token, delimited, Trees, no_trees, a_tree, push,
  is_comma, is_none, ◌+++◌, Group, Groups, no_members,
}
use reql.Derive.Groups.{
  keep_token, start, groups_of, Hash, only, end_value_if, insert_member, at_colon, at_tree,
  read_member, read_members, members_of, group_by_comma,
}
use reql.Derive.Groups.Depth.{Within, TreeWithin, OnSome, bind-agree, Agree, Agree-read_trees}

Within-append : (n : ℕ) (ts us : Trees) → Within n ts → Within n us → Within n (ts +++ us)
Within-append n no_trees us h k = k
Within-append n (a_tree t ts) us (p, h) k = (p, Within-append n ts us h k)

Within-keep_token :
    (n : ℕ) (t : Tree) (ts : Trees) → TreeWithin n t → Within n ts → Within n (keep_token t ts)
Within-keep_token n t ts p h = by_comma (is_comma t)
  where
    by_comma : (b : Bool) → Within n (if b then ts else push ts t)
    by_comma true = h
    by_comma false = Within-append n ts (a_tree t no_trees) h (p, tt)

abbrev Valid : ℕ → Hash → Type 0
Valid n h = Within n h.val

module _ (show : Tree → Text) (n : ℕ) (f g : Trees → Option Groups)
    (hf : (us : Trees) → Within n us → f us ≡ g us) where
  -- The two readers do the same, and keep what they know.
  abbrev Same : Option Hash → Option Hash → Type 0
  Same o o' = (o ≡ o') × OnSome (Valid n) o

  abbrev closed : Hash → Groups → Option Hash
  closed h gs = only gs >>= λ x.
      some (record h { hash = insert_member h.key x h.hash; is_key = true; val = no_trees })

  Valid-closed : (h : Hash) (o : Option Groups) → OnSome (Valid n) (o >>= closed h)
  Valid-closed h none = tt
  Valid-closed h (some gs) = one (only gs)
    where
      one :
          (x : Option Group)
          → OnSome (Valid n) (
              x >>= λ y.
              some
                (record h { hash = insert_member h.key y h.hash; is_key = true; val = no_trees }))
      one none = tt
      one (some y) = tt

  Same-end_value_if :
      (b : Bool) (h : Hash) → Valid n h → Same (end_value_if show f b h) (end_value_if show g b h)
  Same-end_value_if true h v = (ap (λ o. o >>= closed h) (hf h.val v), Valid-closed h (f h.val))
  Same-end_value_if false h v = (refl, v)

  Same-at_tree :
      (b : Bool) (h : Hash) (t : Tree) (last : Bool)
      → Valid n h
      → TreeWithin n t
      → Same (at_tree show f b h t last) (at_tree show g b h t last)
  Same-at_tree true h t last v k = (refl, v)
  Same-at_tree false h t last v k =
      Same-end_value_if (is_comma t || last) (record h { val = keep_token t h.val })
        (Within-keep_token n t h.val k v)

  Same-at_colon : (key : Text) (h : Hash) → Valid n h → Same (at_colon key h) (at_colon key h)
  Same-at_colon [] h v = (refl, tt)
  Same-at_colon (c ∷ cs) h v = (refl, v)

  Same-read_member :
      (h : Hash) (t : Tree) (last : Bool)
      → Valid n h
      → TreeWithin n t
      → Same (read_member show f h t last) (read_member show g h t last)
  Same-read_member h (token colon) last v k = Same-at_colon h.key h v
  Same-read_member h (token or) last v k = Same-at_tree h.is_key h (token or) last v k
  Same-read_member h (token or_or) last v k = Same-at_tree h.is_key h (token or_or) last v k
  Same-read_member h (token comma) last v k = Same-at_tree h.is_key h (token comma) last v k
  Same-read_member h (token (ident i)) last v k = Same-at_tree h.is_key h (token (ident i)) last v k
  Same-read_member h (token (str i)) last v k = Same-at_tree h.is_key h (token (str i)) last v k
  Same-read_member h (token (other i)) last v k = Same-at_tree h.is_key h (token (other i)) last v k
  Same-read_member h (delimited d us) last v k = Same-at_tree h.is_key h (delimited d us) last v k

  Agree-read_members :
      (h : Hash) (ts : Trees)
      → Valid n h
      → Within n ts
      → read_members show f h ts ≡ read_members show g h ts
  unfolding read_members
  Agree-read_members h no_trees v k = refl
  Agree-read_members h (a_tree t ts) v (k, ks) =
      let (e, valid) = Same-read_member h t (is_none ts) v k in
      bind-agree (Valid n) _ _ _ _ e valid (λ h' v'. Agree-read_members h' ts v' ks)

module _ (checks : Bool) (show : Tree → Text) where
  Agree-members_of :
      (n : ℕ) (f g : Trees → Option Groups)
      → Agree n f g
      → Agree n (members_of show f checks) (members_of show g checks)
  Agree-members_of zero f g h us k = absurd k
  Agree-members_of (suc n) f g h no_trees k = refl
  Agree-members_of (suc n) f g h (a_tree t ts) k =
      Agree-read_members show n f g h
        (record { hash = no_members; is_key = true; key = []; val = no_trees }) (a_tree t ts) tt k

  Agree-groups_of :
      (n : ℕ) (f g : Trees → Option Groups)
      → Agree n f g
      → (ts : Trees) → Within n ts
      → groups_of f (members_of show f checks) checks ts
        ≡ groups_of g (members_of show g checks) checks ts
  Agree-groups_of n f g h no_trees k = refl
  Agree-groups_of n f g h (a_tree t ts) k =
      Agree-read_trees n f g (members_of show f checks) (members_of show g checks) h
        (Agree-members_of n f g h) (start f (members_of show f checks)) (a_tree t ts) tt k

  -- Fuel above the number of brackets and braces that stand in each other makes no difference: what
  -- is no result then is a panic of the macro.
  pub group_by_comma-enough :
      (n m : ℕ) (ts : Trees)
      → Within n ts
      → n ≤ m
      → group_by_comma checks show (suc n) ts ≡ group_by_comma checks show (suc m) ts
  unfolding group_by_comma
  group_by_comma-enough zero m ts k le =
      Agree-groups_of zero (group_by_comma checks show zero) (group_by_comma checks show m)
        (λ us q. absurd q) ts k
  group_by_comma-enough (suc n) zero ts k le = absurd (omega (arith, le))
  group_by_comma-enough (suc n) (suc m) ts k le =
      Agree-groups_of (suc n) (group_by_comma checks show (suc n))
        (group_by_comma checks show (suc m))
        (λ us q. group_by_comma-enough n m us q (omega (arith, le))) ts k
