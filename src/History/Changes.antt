-- ===== src/History/Changes.antt =====
-- document/change_history.go: changeHistory and its operations, and the transforms of Session that use
-- it. The limit, the length of `entries`, is at least 1 in a configuration that the code accepts.
use docengine.Prelude.{
  ℕ, ◌+◌, ◌%◌, ◌/◌, Bool, not, ◌&&◌, ◌||◌, ltb, leb, ◌==◌, if◌then◌else◌, List, [], ◌∷◌, Option,
  none, some, length, pos, Result, ok, err,
}
use docengine.Coordinate.ChangeMap.{
  Anchor, AnchoredRange, ChangeMap, Error, identity, is_empty, maximum_transform_steps,
}
use docengine.Coordinate.Batch.{transform_anchors, transform_ranges}
use docengine.Coordinate.Compose.{compose_all, invert}
use docengine.History.Ring.{set_at, slot, zeroes, window}

pub record ChangeHistory : Type 0 where
  pub entries : List ChangeMap
  pub start : ℕ
  pub count : ℕ
  pub base_revision : ℕ
  pub base_length : ℕ
  pub current_revision : ℕ
  pub current_length : ℕ

pub record HistoryStats : Type 0 where
  pub oldest_revision : ℕ
  pub current_revision : ℕ
  pub entries : ℕ
  pub limit : ℕ

-- ErrChangeHistoryExpired and ErrRevisionUnavailable.
pub data WindowFault : Type 0 where
  expired unavailable : WindowFault

-- ChangeHistoryError.
pub record WindowError : Type 0 where
  pub from_revision : ℕ
  pub to_revision : ℕ
  pub oldest_revision : ℕ
  pub current_revision : ℕ
  pub fault : WindowFault

pub data Failure : Type 0 where
  outside : WindowError → Failure
  coordinate : Error → Failure
  limit_exceeded : Failure

-- The zero ChangeMap, which fills unused entries.
abbrev pub zero_map : ChangeMap
zero_map = record {
  before_revision = 0;
  after_revision = 0;
  before_length = 0;
  after_length = 0;
  edits = [];
}

unfoldable pub new_change_history : ℕ → ℕ → ℕ → ChangeHistory
new_change_history limit revision len = record {
  entries = zeroes zero_map limit;
  start = 0;
  count = 0;
  base_revision = revision;
  base_length = len;
  current_revision = revision;
  current_length = len;
}

unfoldable pub reset : ChangeHistory → ℕ → ℕ → ChangeHistory
reset h revision len = record {
  entries = zeroes zero_map (length h.entries);
  start = 0;
  count = 0;
  base_revision = revision;
  base_length = len;
  current_revision = revision;
  current_length = len;
}

unfoldable pub entry : ChangeHistory → ℕ → ChangeMap
entry h i = slot zero_map h.entries ((h.start + i) % length h.entries)

-- The entries that a loop over `index < h.count` meets, in order.
unfoldable pub retained : ChangeHistory → List ChangeMap
retained h = window zero_map h.entries h.start 0 h.count

-- The tail of append: a full ring puts the change in the place of its oldest entry, another one
-- behind the last.
abbrev pub turned : ChangeHistory → ChangeMap → ChangeHistory
turned h c =
    let evicted = slot zero_map h.entries h.start in
    record h {
      base_revision = evicted.after_revision;
      base_length = evicted.after_length;
      entries = set_at h.entries h.start c;
      start = (h.start + 1) % length h.entries;
      current_revision = c.after_revision;
      current_length = c.after_length;
    }

abbrev pub added : ChangeHistory → ChangeMap → ChangeHistory
added h c = record h {
  entries = set_at h.entries ((h.start + h.count) % length h.entries) c;
  count = h.count + 1;
  current_revision = c.after_revision;
  current_length = c.after_length;
}

unfoldable pub pushed : ChangeHistory → ChangeMap → ChangeHistory
pushed h c = if h.count == length h.entries then turned h c else added h c

-- Does the change start where the history ends?
abbrev pub continues : ChangeHistory → ChangeMap → Bool
continues h c = c.before_revision == h.current_revision && c.before_length == h.current_length

unfoldable pub append : ChangeHistory → ChangeMap → ChangeHistory
append h c =
    if is_empty c.edits
    then (if continues h c
          && (c.after_revision == h.current_revision && c.after_length == h.current_length)
        then h
        else reset h c.after_revision c.after_length)
    else if not (continues h c) || leb c.after_revision c.before_revision
    then pushed (reset h c.before_revision c.before_length) c
    else pushed h c

-- The loop of boundaryLength over the entries.
unfoldable pub find_boundary : List ChangeMap → ℕ → Option ℕ
find_boundary [] revision = none
find_boundary (c ∷ cs) revision =
    let rest = find_boundary cs revision in
    if revision == c.after_revision then some c.after_length else rest

unfoldable pub boundary_length : ChangeHistory → ℕ → Option ℕ
boundary_length h revision =
    if revision == h.base_revision then some h.base_length else find_boundary (retained h) revision

-- The loop of between: the maps that lead from the cursor to `high`; none where one does not fit.
unfoldable pub collect : ℕ → ℕ → List ChangeMap → Option (List ChangeMap)
collect high cursor [] = some []
collect high cursor (c ∷ cs) =
    let skip = collect high cursor cs in
    let rest = collect high c.after_revision cs in
    if leb high cursor
    then some []
    else if leb c.after_revision cursor
    then skip
    else if not (c.before_revision == cursor) || ltb high c.after_revision
    then none
    else elim rest [ none ↦ none | some chain ↦ some (c ∷ chain) ]

unfoldable pub window_error : ChangeHistory → ℕ → ℕ → WindowFault → Failure
window_error h from to fault = outside (record {
  from_revision = from;
  to_revision = to;
  oldest_revision = h.base_revision;
  current_revision = h.current_revision;
  fault = fault;
})

-- The map from `low` on, through the collected chain.
unfoldable pub joined_chain : ChangeHistory → ℕ → ℕ → ℕ → Option ChangeMap
joined_chain h low low_length high = elim (collect high low (retained h)) [
  | none ↦ none
  | some chain ↦ elim (identity low (pos low_length)) [
    | err x ↦ none
    | ok start ↦ elim (compose_all start chain) [ err x ↦ none | ok m ↦ some m ]
  ]
]

unfoldable pub between : ChangeHistory → ℕ → ℕ → Result Failure ChangeMap
between h from to =
    if ltb from h.base_revision || ltb to h.base_revision
    then err (window_error h from to expired)
    else if ltb h.current_revision from || ltb h.current_revision to
    then err (window_error h from to unavailable)
    else elim (boundary_length h from) [
      | none ↦ err (window_error h from to unavailable)
      | some from_length ↦ elim (boundary_length h to) [
        | none ↦ err (window_error h from to unavailable)
        | some to_length ↦
            if from == to
            then elim (identity from (pos from_length)) [ err x ↦ err (coordinate x) | ok m ↦ ok m ]
            else if ltb to from
            then elim (joined_chain h to to_length from) [
              | none ↦ err (window_error h from to unavailable)
              | some m ↦ ok (invert m)
            ]
            else elim (joined_chain h from from_length to) [
              | none ↦ err (window_error h from to unavailable)
              | some m ↦ ok m
            ]
      ]
    ]

unfoldable pub history_stats : ChangeHistory → HistoryStats
history_stats h = record {
  oldest_revision = h.base_revision;
  current_revision = h.current_revision;
  entries = h.count;
  limit = length h.entries;
}

-- clone: the entries are copied to the front of a new ring.
unfoldable pub copy_entries : List ChangeMap → ℕ → List ChangeMap → List ChangeMap
copy_entries entries i [] = entries
copy_entries entries i (c ∷ cs) = copy_entries (set_at entries i c) (i + 1) cs

unfoldable pub clone : ChangeHistory → ChangeHistory
clone h = record h {
  entries = copy_entries (zeroes zero_map (length h.entries)) 0 (retained h);
  start = 0;
}

-- Session.TransformAnchors and Session.TransformRanges, for a batch limit of the configuration.
abbrev pub coordinate_error {ℓ} : {A : Type ℓ} → Result Error A → Result Failure A
coordinate_error (err x) = err (coordinate x)
coordinate_error (ok a) = ok a

unfoldable pub session_transform_anchors :
    ChangeHistory → ℕ → ℕ → ℕ → List Anchor → Result Failure (List Anchor)
session_transform_anchors h batch_limit from to anchors =
    if ltb batch_limit (length anchors)
    then err limit_exceeded
    else elim (between (clone h) from to) [
      | err x ↦ err x
      | ok m ↦
          if ltb 0 (length m.edits)
            && ltb (maximum_transform_steps / length m.edits) (length anchors)
          then err limit_exceeded
          else coordinate_error (transform_anchors m anchors)
    ]

unfoldable pub session_transform_ranges :
    ChangeHistory → ℕ → ℕ → ℕ → List AnchoredRange → Result Failure (List AnchoredRange)
session_transform_ranges h batch_limit from to values =
    if ltb batch_limit (length values)
    then err limit_exceeded
    else elim (between (clone h) from to) [
      | err x ↦ err x
      | ok m ↦
          if ltb 0 (length m.edits)
            && ltb (maximum_transform_steps / 2 / length m.edits) (length values)
          then err limit_exceeded
          else coordinate_error (transform_ranges m values)
    ]
