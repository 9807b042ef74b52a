-- ===== src/LineIndex/Answers.antt =====
-- document/coordinate/index.go: every rune boundary of the text is found, by its byte offset, by its
-- rune offset, and by its line and column.
use docengine.Prelude.{
  Holds, Source, ℕ, ◌+◌, ◌-◌, ◌%◌, u64_mod, ◌≤◌, ◌≡◌, refl, sym, ap, ◌∙◌, subst, ◌⊎◌, inl, inr, min,
  true, false, Bool, Bool-cases, List, [], ◌∷◌, Option, Option-cases, Result, ok, arith, length,
  drop, slice, slice-min, length-slice, take-append-drop,
}
use docengine.LineIndex.State.{Index, IndexError, Checkpoint, Position, start_checkpoint}
use docengine.LineIndex.Cache.{find_entry}
use docengine.LineIndex.Query.{
  fill, read_window, window_from, window_length, last_before, checkpoint_before, query,
}
use docengine.LineIndex.Runes.{Reaches, here}
use docengine.LineIndex.Boundaries.{
  Reaches-linear, Reaches-same, Reaches-trans, Reaches-in, Finds, seek_lem,
}
use docengine.LineIndex.Windows.{
  fill_lem, IsCacheOf, SameText, SameButCache-SameText, store_window_lem, cached_window_lem,
  cached_window_hit, cached_window_miss, missed_window_lem,
}

-- Each checkpoint is a rune boundary that a window from the one before it covers, and the last one is
-- the end of the text.
abbrev pub Spaced : List ℕ → ℕ → Checkpoint → List Checkpoint → Type 0
Spaced text block c [] = c.byte_offset ≡ length text
Spaced text block c (d ∷ ds) =
    Reaches text c d × (d.byte_offset ≤ c.byte_offset + (block + 4)) × Spaced text block d ds

pub record IsIndexOf (text : List ℕ) (i : Index) : Type 0 where
  pub rest : List Checkpoint
  pub starts : i.checkpoints ≡ start_checkpoint ∷ rest
  pub spaced : Spaced text i.checkpoint_bytes start_checkpoint rest
  pub whole : i.byte_length ≡ length text
  pub end : Checkpoint
  pub reached : Reaches text start_checkpoint end
  pub at_end : end.byte_offset ≡ length text
  pub runes : i.rune_count ≡ end.rune_offset
  pub lines : i.line_count ≡ end.line + 1
  pub opened : i.closed ≡ false
  pub cached : IsCacheOf text i

pub IsIndexOf-same :
    (text : List ℕ) (i i' : Index)
    → IsIndexOf text i
    → IsCacheOf text i'
    → SameText i i'
    → IsIndexOf text i'
IsIndexOf-same text i i' v c s = record {
  rest = v.rest;
  starts = s.same_checkpoints ∙ v.starts;
  spaced = subst (λ k. Spaced text k start_checkpoint v.rest) (sym s.same_block) v.spaced;
  whole = s.same_length ∙ v.whole;
  end = v.end;
  reached = v.reached;
  at_end = v.at_end;
  runes = s.same_runes ∙ v.runes;
  lines = s.same_lines ∙ v.lines;
  opened = s.same_closed ∙ v.opened;
  cached = c;
}

-- A window read at a position of the text: the bytes from there on, and the index as it was, but for
-- its cache.
pub read_window_lem :
    (read_at : Source) (text : List ℕ) (i : Index) (start : ℕ)
    → Holds read_at text
    → IsIndexOf text i
    → start ≤ length text
    → ((read_window read_at i start).0 ≡ ok (slice (i.checkpoint_bytes + 4) start text))
      × IsIndexOf text (read_window read_at i start).1
unfolding read_window window_from
read_window_lem read_at text i start holds v h = elim (Option-cases (find_entry i.cache start)) [
  | inr (e, f) ↦
      let (w, c, s) = cached_window_lem text i start e v.cached f in
      rw (cached_window_hit i start e f) (ap ok w, IsIndexOf-same text i _ v c s)
  | inl f ↦
      let n = window_length i start in
      let m : n ≡ min (i.checkpoint_bytes + 4) (length text - start) =
        ap (λ k. min (i.checkpoint_bytes + 4) (k - start)) v.whole in
      let bytes : fill read_at n start n ≡ ok (slice (i.checkpoint_bytes + 4) start text) =
        fill_lem read_at text start n holds (omega (arith, m))
        ∙ ap ok (
            ap (λ k. slice k start text) m ∙ sym (slice-min (i.checkpoint_bytes + 4) start text)) in
      let (c, same) = missed_window_lem text i ((i.cache_misses + 1) % u64_mod) v.cached in
      let missed =
        IsIndexOf-same text i (record i { cache_misses = (i.cache_misses + 1) % u64_mod }) v c
          same in
      let st =
        store_window_lem text (record i { cache_misses = (i.cache_misses + 1) % u64_mod }) start
          (slice (i.checkpoint_bytes + 4) start text) c refl in
      rw (cached_window_miss i start f, window_from, bytes)
        (refl, IsIndexOf-same text _ _ missed st.0 (SameButCache-SameText _ _ st.1))
]

-- The checkpoint from which a query starts.
abbrev Covered : List ℕ → ℕ → (Checkpoint → Bool) → Checkpoint → Checkpoint → Type 0
Covered text block past c cp =
    Reaches text c cp
    × (past cp ≡ false)
    × (((d : Checkpoint) × Reaches text cp d
          × (past d ≡ true)
          × (d.byte_offset ≤ cp.byte_offset + (block + 4)))
        ⊎ (cp.byte_offset ≡ length text))

last_before_lem :
    (text : List ℕ) (block : ℕ) (past : Checkpoint → Bool) (c : Checkpoint) (ds : List Checkpoint)
    → Spaced text block c ds
    → past c ≡ false
    → Covered text block past c (last_before past c ds)
unfolding last_before
last_before_lem text block past c [] s h = (here, h, inr s)
last_before_lem text block past c (d ∷ ds) s h = elim (Bool-cases (past d)) [
  | inl e ↦ rw e (here, h, inl (d, s.0, e, s.1))
  | inr e ↦
      let ih = last_before_lem text block past d ds s.2 e in
      rw e (Reaches-trans s.0 ih.0, ih.1, ih.2)
]

-- What makes a query one for the boundary `t`.
pub record Asks (text : List ℕ) (past hits : Checkpoint → Bool) (t : Checkpoint) : Type 0 where
  pub start_before : past start_checkpoint ≡ false
  pub before :
      (c : Checkpoint)
      → Reaches text start_checkpoint c
      → past c ≡ false
      → c.byte_offset ≤ t.byte_offset
  pub behind :
      (c : Checkpoint)
      → Reaches text start_checkpoint c
      → past c ≡ true
      → t.byte_offset ≤ c.byte_offset
  pub exact :
      (c : Checkpoint)
      → Reaches text start_checkpoint c
      → hits c ≡ true
      → t.byte_offset ≤ c.byte_offset

last_before_first :
    (past : Checkpoint → Bool) (c : Checkpoint) (ds : List Checkpoint)
    → past c ≡ false
    → last_before past c (c ∷ ds) ≡ last_before past c ds
unfolding last_before
last_before_first past c ds h = rw h

pub query_lem :
    (read_at : Source) (text : List ℕ) (i : Index) (past hits : Checkpoint → Bool)
    (done : Checkpoint → Option (Result IndexError Position)) (overruns : Checkpoint → ℕ → Bool)
    (at_end : IndexError) (t : Checkpoint)
    → Holds read_at text
    → IsIndexOf text i
    → Reaches text start_checkpoint t
    → Asks text past hits t
    → Finds text done overruns t
    → ((query read_at past hits done overruns at_end i).0 ≡ ok t)
      × IsIndexOf text (query read_at past hits done overruns at_end i).1
unfolding query
query_lem read_at text i past hits done overruns at_end t holds v r a f =
    let cp = checkpoint_before i past in
    let e : last_before past start_checkpoint v.rest ≡ cp = sym (
      ap (last_before past start_checkpoint) v.starts
      ∙ last_before_first past start_checkpoint v.rest a.start_before) in
    let cov = subst (Covered text i.checkpoint_bytes past start_checkpoint) e (
      last_before_lem text i.checkpoint_bytes past start_checkpoint v.rest v.spaced
        a.start_before) in
    let le = a.before cp cov.0 cov.1 in
    let reach = Reaches-linear cov.0 r le in
    let cp_in = Reaches-in cov.0 (omega arith) in
    let t_in = Reaches-in r (omega arith) in
    let w = read_window_lem read_at text i cp.byte_offset holds v cp_in in
    let window = slice (i.checkpoint_bytes + 4) cp.byte_offset text in
    let n = length-slice (i.checkpoint_bytes + 4) cp.byte_offset text in
    let enough : t.byte_offset ≤ cp.byte_offset + length window = elim cov.2 [
      | inl (d, q, past_d, near) ↦
          omega (arith, n, t_in, cp_in, near, a.behind d (Reaches-trans cov.0 q) past_d)
      | inr last ↦ omega (arith, n, t_in, last)
    ] in
    elim (Bool-cases (hits cp)) [
      | inl h ↦ rw h (ap ok (Reaches-same reach (a.exact cp cov.0 h)), v)
      | inr h ↦
          let found =
            seek_lem done overruns at_end window
              (drop (i.checkpoint_bytes + 4) (drop cp.byte_offset text)) reach f
              (sym (take-append-drop (i.checkpoint_bytes + 4) (drop cp.byte_offset text))) enough in
          rw (h, w.0) (found, w.1)
    ]
