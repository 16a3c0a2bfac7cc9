-- ===== src/Channels.antt =====
-- `_normalize_channels`, which the delivery service (services/fanout.py) and the subscriptions
-- service (services/subscriptions.py) both have. `lower` stands for Python's `str.lower`, which
-- follows the Unicode tables.
pub mod Laws
use substy.Base.{
  Bool, true, false, not, ◌&&◌, List, [], ◌∷◌, String, strip, truthy, member, if◌then◌else◌,
}

abbrev pub cleaned : (String → String) → String → String
cleaned lower channel = lower (strip channel)

-- The loop, with the set `seen`.
unfoldable pub normalize_from : (String → String) → List String → List String → List String
normalize_from lower seen [] = []
normalize_from lower seen (channel ∷ channels) =
    let lowered = cleaned lower channel in
    let kept = lowered ∷ normalize_from lower (lowered ∷ seen) channels in
    let skipped = normalize_from lower seen channels in
    if truthy lowered && not (member lowered seen) then kept else skipped

unfoldable pub normalize_channels : (String → String) → List String → List String
unfolding normalize_from
normalize_channels lower channels = normalize_from lower [] channels
