-- ===== src/Channels/Laws.antt =====
-- What `_normalize_channels` returns.
use substy.Base.{
  ◌≡◌, refl, false, not, ◌&&◌, List, [], ◌∷◌, map, String, truthy, member, eq_iff, eq_refl, arith,
}
use substy.Channels.{cleaned, normalize_from, normalize_channels}

-- No item twice.
abbrev pub NoRepeat : List String → Type 0
NoRepeat [] = Unit
NoRepeat (x ∷ xs) = (member x xs ≡ false) × NoRepeat xs

-- An item is kept exactly when some channel cleans to it, it is not empty, and it was not seen.
member-normalize_from :
    (lower : String → String) (x : String) (seen channels : List String)
    → member x (normalize_from lower seen channels)
      ≡ (member x (map (cleaned lower) channels) && (truthy x && not (member x seen)))
unfolding normalize_from member
member-normalize_from lower x seen [] = refl
member-normalize_from lower x seen (c ∷ cs) = ground (
  arith,
  eq_iff (cleaned lower c) x,
  member-normalize_from lower x seen cs,
  member-normalize_from lower x (cleaned lower c ∷ seen) cs,
)

normalize_from-NoRepeat :
    (lower : String → String) (seen channels : List String)
    → NoRepeat (normalize_from lower seen channels)
unfolding normalize_from member
normalize_from-NoRepeat lower seen [] = tt
normalize_from-NoRepeat lower seen (c ∷ cs) = ground (
  arith,
  eq_refl (cleaned lower c),
  member-normalize_from lower (cleaned lower c) (cleaned lower c ∷ seen) cs,
  normalize_from-NoRepeat lower seen cs,
  normalize_from-NoRepeat lower (cleaned lower c ∷ seen) cs,
)

-- A channel is in the result exactly when it is not empty and is a given channel, stripped and in
-- lower case; and nothing is in the result twice.
pub normalize_channels_lem :
    (lower : String → String) (x : String) (channels : List String)
    → (member x (normalize_channels lower channels)
        ≡ (member x (map (cleaned lower) channels) && truthy x))
      × NoRepeat (normalize_channels lower channels)
unfolding normalize_channels member
normalize_channels_lem lower x channels = (
  ground (arith, member-normalize_from lower x [] channels),
  normalize_from-NoRepeat lower [] channels,
)
