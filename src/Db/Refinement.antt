-- ===== src/Db/Refinement.antt =====
-- The data layer as a map from ids to what the user has made of the cases, and the drawer as an id.
use mathlib.Core.Option
use wachen.Base.{
  ◌≡◌, refl, ◌∙◌, ap, ℕ, ◌+◌, Bool, true, false, List, [], ◌∷◌, ◌++◌, Option, none, some, is_some,
  Text, utf16, text_eq, text_eq_iff, text_Eq, if◌then◌else◌, Option-cases, inl, inr, arith,
}
use wachen.Base.LastBy.{last_by-update}
use wachen.Domain.{CaseStatus}
use wachen.Case.{WaCase}
use wachen.Db.{
  App, by_id, update_by_id, marked_read, with_status, is_reopening, open_case, open_store,
  close_drawer, set_status, mark_read, mark_all_read, clear_filters, bump, persist,
}
use wachen.Db.Buttons.{by_id-set_status}

-- What the user has made of a case.
pub record Entry : Type 0 where
  pub status : CaseStatus
  pub read : Bool
  pub reopened : ℕ

pub record Memo : Type 0 where
  pub look : Text → Option Entry
  pub shown : Option Text

-- A call of the module.
pub data Op : Type 0 where
  opens_case opens_store marks : Text → Op
  closes clears : Op
  sets_status : Text → CaseStatus → Op
  marks_all : Option (List Text) → Op

unfoldable pub perform : Op → App → App
perform (opens_case id) s = open_case id s
perform (opens_store name) s = open_store name s
perform (marks nid) s = mark_read nid s
perform closes s = close_drawer s
perform clears s = clear_filters s
perform (sets_status id to) s = set_status id to s
perform (marks_all ids) s = mark_all_read ids s

unfoldable pub run : List Op → App → App
unfolding perform
run [] s = s
run (op ∷ ops) s = run ops (perform op s)

abbrev read_entry : Entry → Entry
read_entry e = record e { read = true }

abbrev status_entry : CaseStatus → Entry → Entry
status_entry to e = record {
  status = to;
  read = e.read;
  reopened = if is_reopening e.status to then e.reopened + 1 else e.reopened;
}

-- A change of one entry.
abbrev pub at : Text → (Entry → Entry) → (Text → Option Entry) → Text → Option Entry
at id f look j = if text_eq id j then Option.map f (look j) else look j

-- What each call is to do.
abbrev pub intended : Op → Memo → Memo
intended (opens_case id) m = record {
  look = at id read_entry m.look;
  shown = if is_some (m.look id) then some id else m.shown;
}
intended (opens_store name) m = record m { shown = some (utf16 "store:" ++ name) }
intended closes m = record m { shown = none }
intended (sets_status id to) m = record m { look = at id (status_entry to) m.look }
intended _ m = m

abbrev pub replay : List Op → Memo → Memo
replay [] m = m
replay (op ∷ ops) m = replay ops (intended op m)

abbrev pub entry_of : WaCase → Entry
entry_of c = record { status = c.cstatus; read = c.read; reopened = c.reopened_count }

-- What the module holds, seen so.
abbrev pub memo : App → Memo
memo s = record { look = λ j. Option.map entry_of (by_id j s.cases); shown = s.open_id }

ext : {A B : Type 0} {f g : A → B} → ((x : A) → f x ≡ g x) → f ≡ g
ext h = λ i x. h x i

-- A change of one case is a change of one entry.
map-at :
    (f : WaCase → WaCase) (g : Entry → Entry)
    → ((c : WaCase) → entry_of (f c) ≡ g (entry_of c))
    → (b : Bool) (o : Option WaCase)
    → Option.map entry_of (if b then Option.map f o else o)
      ≡ (if b then Option.map g (Option.map entry_of o) else Option.map entry_of o)
map-at f g h true none = refl
map-at f g h true (some c) = ap some (h c)
map-at f g h false o = refl

set_status-entry :
    (to : CaseStatus) (c : WaCase) → entry_of (with_status to c) ≡ status_entry to (entry_of c)
unfolding with_status
set_status-entry to c = refl

look-set_status :
    (id : Text) (to : CaseStatus) (s : App)
    → (memo (set_status id to s)).look ≡ at id (status_entry to) (memo s).look
look-set_status id to s = ext (λ j.
    ap (Option.map entry_of) (by_id-set_status id j to s)
    ∙ map-at (with_status to) (status_entry to) (set_status-entry to) (text_eq id j)
        (by_id j s.cases))

by_id-update :
    (id j : Text) (cs : List WaCase)
    → by_id j (update_by_id id marked_read cs)
      ≡ (if text_eq id j then Option.map marked_read (by_id j cs) else by_id j cs)
unfolding by_id update_by_id
by_id-update id j cs = last_by-update (λ d. d.id) id j marked_read (λ d. refl) cs

by_id-open_case :
    (id j : Text) (s : App)
    → by_id j (open_case id s).cases
      ≡ (if text_eq id j then Option.map marked_read (by_id j s.cases) else by_id j s.cases)
unfolding open_case persist bump
by_id-open_case id j s = elim (Option-cases (by_id id s.cases)) [
  | inl e ↦ rw e (ground (arith, text_eq_iff id j))
  | inr (c, e) ↦ rw e (by_id-update id j s.cases)
]

look-open_case :
    (id : Text) (s : App) → (memo (open_case id s)).look ≡ at id read_entry (memo s).look
look-open_case id s = ext (λ j.
    ap (Option.map entry_of) (by_id-open_case id j s)
    ∙ map-at marked_read read_entry (λ c. refl) (text_eq id j) (by_id j s.cases))

shown-open_case :
    (id : Text) (s : App)
    → (open_case id s).open_id ≡ (if is_some ((memo s).look id) then some id else s.open_id)
unfolding open_case persist bump
shown-open_case id s = elim (Option-cases (by_id id s.cases)) [
  | inl e ↦ rw e refl
  | inr (c, e) ↦ rw e refl
]

shown-set_status :
    (id : Text) (to : CaseStatus) (s : App) → (set_status id to s).open_id ≡ s.open_id
unfolding set_status persist bump
shown-set_status id to s = elim (Option-cases (by_id id s.cases)) [
  | inl e ↦ rw e refl
  | inr (c, e) ↦ rw e refl
]

both : {m n : Memo} → m.look ≡ n.look → m.shown ≡ n.shown → m ≡ n
both h k = λ i. record { look = h i; shown = k i }

perform-intended : (op : Op) (s : App) → memo (perform op s) ≡ intended op (memo s)
unfolding perform open_store close_drawer mark_read mark_all_read clear_filters bump
perform-intended (opens_case id) s = both (look-open_case id s) (shown-open_case id s)
perform-intended (opens_store name) s = refl
perform-intended (marks nid) s = refl
perform-intended closes s = refl
perform-intended clears s = refl
perform-intended (sets_status id to) s = both (look-set_status id to s) (shown-set_status id to s)
perform-intended (marks_all ids) s = refl

-- Whatever the calls and their order, the status, the read flag and the reopened count that the module
-- holds for each id, and what the drawer shows, are those of the same calls on a map from ids to
-- entries: a case is found, counted as read and changed by its id, and no other call touches it.
pub run_refines : (ops : List Op) (s : App) → memo (run ops s) ≡ replay ops (memo s)
unfolding run
run_refines [] s = refl
run_refines (op ∷ ops) s = run_refines ops (perform op s) ∙ ap (replay ops) (perform-intended op s)
