-- ===== src/Contract/Parse/Total.antt =====
-- Reading the blocks never lacks fuel.
use savk.Base.{ℕ, suc, ◌≡◌, ◌≢◌, refl, true, [], ◌∷◌, Result, ok, err, ◌>>=◌, length, arith}
use savk.Contract.Node.{Node, mapping, list, string, int, bool, ParseError, out_of_fuel}
use savk.Contract.Block.{Lines, parse_block, parse_map}
use savk.Contract.Block.Fuel.{is_fueled, Leaves, parse_map-Leaves, parse_block-Leaves}
use savk.Contract.Parse.{root_entries, parse_root}

root_entries-is_fueled : (r : Node × Lines) → is_fueled (root_entries r) ≡ true
unfolding root_entries
root_entries-is_fueled (mapping _ _, []) = refl
root_entries-is_fueled (list _ _, []) = refl
root_entries-is_fueled (string _ _, []) = refl
root_entries-is_fueled (int _ _, []) = refl
root_entries-is_fueled (bool _ _, []) = refl
root_entries-is_fueled (mapping _ _, l ∷ ls) = refl
root_entries-is_fueled (list _ _, l ∷ ls) = refl
root_entries-is_fueled (string _ _, l ∷ ls) = refl
root_entries-is_fueled (int _ _, l ∷ ls) = refl
root_entries-is_fueled (bool _ _, l ∷ ls) = refl

root-is_fueled :
    (n : ℕ) (r : Result ParseError (Node × Lines))
    → Leaves n r
    → is_fueled (r >>= root_entries) ≡ true
root-is_fueled n (ok r) h = root_entries-is_fueled r
root-is_fueled n (err out_of_fuel) h = absurd h
root-is_fueled n (err _) h = refl

parse_root-is_fueled : (ls : Lines) → is_fueled (parse_root ls) ≡ true
unfolding parse_root
parse_root-is_fueled [] = refl
parse_root-is_fueled (l ∷ ls) = ground (
  arith,
  root-is_fueled (length (l ∷ ls)) (parse_block (parse_map (suc (length (l ∷ ls)))) 0 (l ∷ ls)) (
      parse_block-Leaves (suc (length (l ∷ ls))) (parse_map (suc (length (l ∷ ls))))
        (parse_map-Leaves (suc (length (l ∷ ls)))) 0 (l ∷ ls) (omega arith)),
)

-- However the lines are indented, the reader of blocks ends with the root's entries or an error
-- of the source: one unit of fuel more than there are lines is enough.
pub parse_root-ne-out_of_fuel : (ls : Lines) → parse_root ls ≢ err out_of_fuel
parse_root-ne-out_of_fuel ls h = let e = parse_root-is_fueled ls in absurd (ground arith)
