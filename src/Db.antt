-- ===== src/Db.antt =====
-- The data layer of the admin client, `admin/src/lib/db.ts`: the cases with the status that they
-- start with, what is kept in `localStorage`, the drawer, the filters and the subscribers. The
-- mutable variables of the module are the fields of `App`; a function that changes them returns the
-- new `App`.
pub mod Invariant
pub mod Reload
pub mod Buttons
pub mod Refinement
pub mod Clock
pub mod Watch
mod Tests
use wachen.Base.{
  ℕ, ◌+◌, Bool, true, false, not, ◌&&◌, ◌||◌, List, [], ◌∷◌, ◌++◌, map, Option, none, some, is_some,
  or_else, Text, utf16, text_Eq, ◌==◌, if◌then◌else◌, get, put, includes, filter, nat_eq,
}
use wachen.Base.LastBy.{last_by, update_last_by}
use wachen.Domain.{
  RiskLevel, high, CaseStatus, open_, in_progress, done, closed, risk_Eq, status_Eq,
}
use wachen.Case.{RawCase, WaCase, Notice, ReviewFilters}
use wachen.SeedStatus.{seed_status, case_code}

-- `{ s?: CaseStatus; read?: boolean }`
pub record Override : Type 0 where
  pub s : Option CaseStatus
  pub read : Option Bool

-- The type of `ov`.
abbrev pub Overrides : Type 0
Overrides = List (Text × Override)

-- What `localStorage` has under the key `LS`: nothing, a text that `JSON.parse` refuses, the text
-- `null`, or an object.
pub data Slot : Type 0 where
  absent broken null : Slot
  holds : Overrides → Slot

-- `ov = JSON.parse(localStorage.getItem(LS) ?? "{}") ?? {}`, with its `catch`.
unfoldable pub load : Slot → Overrides
load (holds ov) = ov
load _ = []

abbrev pub saved_status : Option Override → Option CaseStatus
saved_status none = none
saved_status (some o) = o.s

abbrev pub saved_read : Option Override → Bool
saved_read none = false
saved_read (some o) = or_else o.read false

-- `c.risk_level === "high" && s === "in_progress"`
abbrev pub is_escalated : RiskLevel → CaseStatus → Bool
is_escalated r s = r == high && s == in_progress

-- The element of `CASES` for a case of the data.
unfoldable pub boot_case : Overrides → RawCase → WaCase
boot_case ov c =
    let s = or_else (saved_status (get c.id ov)) (seed_status c.id c.risk_level) in
    record {
      raw = c;
      cstatus = s;
      code = case_code c.id;
      read = saved_read (get c.id ov);
      escalated = is_escalated c.risk_level s;
    }

unfoldable pub boot : Slot → List RawCase → List WaCase
unfolding boot_case load
boot slot cs = map (boot_case (load slot)) cs

-- `byId[id]`: of the cases with that id, `Object.fromEntries` keeps the last. It is the very object
-- that `CASES` holds, so a write to it is a write to that element.
unfoldable pub by_id : Text → List WaCase → Option WaCase
unfolding last_by
by_id id cs = last_by (λ c. c.id) id cs

-- `const c = byId[id]` and a write to `c`.
unfoldable pub update_by_id : Text → (WaCase → WaCase) → List WaCase → List WaCase
unfolding update_last_by
update_by_id id f cs = update_last_by (λ c. c.id) id f cs

pub record App : Type 0 where
  pub cases : List WaCase
  pub notices : List Notice
  pub slot : Slot
  pub storage_full : Bool
  pub rf : ReviewFilters
  pub open_id : Option Text
  pub overflow : Text
  pub version : ℕ
  pub listeners : List ℕ
  pub calls : List ℕ

abbrev pub entry : WaCase → Override
entry c = record { s = some c.cstatus; read = some c.read }

-- The loop of `persist`.
unfoldable pub collect_from : Overrides → List WaCase → Overrides
collect_from o [] = o
collect_from o (c ∷ cs) = collect_from (put c.id (entry c) o) cs

-- `setItem` throws when the storage is full, and the throw is ignored.
unfoldable pub persist : App → App
unfolding collect_from
persist s = record s { slot = if s.storage_full then s.slot else holds (collect_from [] s.cases) }

-- `calls` records the listeners in the order in which they were called.
unfoldable pub bump : App → App
bump s = record s { version = s.version + 1; calls = s.calls ++ s.listeners }

-- The two functions that `useApp` gives to React; `listeners` is a `Set`.
unfoldable pub subscribe : ℕ → App → App
subscribe l s = record s {
  listeners = if includes l s.listeners then s.listeners else s.listeners ++ l ∷ [];
}

unfoldable pub unsubscribe : ℕ → App → App
unsubscribe l s = record s { listeners = filter (λ k. not (k == l)) s.listeners }

abbrev pub no_filters : ReviewFilters
no_filters = record {
  q = [];
  brand = [];
  store = [];
  risk = none;
  sent = none;
  status = none;
  cat = [];
  overdue = false;
}

unfoldable pub clear_filters : App → App
unfolding bump
clear_filters s = bump (record s { rf = no_filters })

abbrev pub marked_read : WaCase → WaCase
marked_read c = record c { read = true }

unfoldable pub open_case : Text → App → App
unfolding by_id update_by_id persist bump
open_case id s =
    if is_some (by_id id s.cases)
    then (let t = persist (record s { cases = update_by_id id marked_read s.cases }) in
        bump (record t { open_id = some id; overflow = utf16 "hidden" }))
    else s

unfoldable pub open_store : Text → App → App
unfolding bump
open_store name s =
    bump (record s { open_id = some (utf16 "store:" ++ name); overflow = utf16 "hidden" })

unfoldable pub close_drawer : App → App
unfolding bump
close_drawer s = bump (record s { open_id = none; overflow = [] })

-- `to === "open" && (c.cstatus === "closed" || c.cstatus === "done")`
abbrev pub is_reopening : CaseStatus → CaseStatus → Bool
is_reopening from to = to == open_ && (from == closed || from == done)

unfoldable pub with_status : CaseStatus → WaCase → WaCase
with_status to c = record {
  raw = record c.raw {
    reopened_count = if is_reopening c.cstatus to then c.reopened_count + 1 else c.reopened_count;
  };
  cstatus = to;
  code = c.code;
  read = c.read;
  escalated = is_escalated c.risk_level to;
}

unfoldable pub set_status : Text → CaseStatus → App → App
unfolding by_id update_by_id with_status persist bump
set_status id to s =
    if is_some (by_id id s.cases)
    then bump (persist (record s { cases = update_by_id id (with_status to) s.cases }))
    else s

abbrev pub notice_read : Notice → Notice
notice_read n = record n { read = true }

-- `DB.notifications.find(…)`, and the write to what it found.
unfoldable pub read_first : Text → List Notice → List Notice
read_first nid [] = []
read_first nid (n ∷ ns) = if n.id == nid then notice_read n ∷ ns else n ∷ read_first nid ns

unfoldable pub mark_read : Text → App → App
unfolding read_first bump
mark_read nid s = bump (record s { notices = read_first nid s.notices })

abbrev pub in_set : Option (List Text) → Text → Bool
in_set none id = true
in_set (some ids) id = includes id ids

-- Without ids, all notifications.
unfoldable pub mark_all_read : Option (List Text) → App → App
unfolding bump
mark_all_read ids s =
    bump (record s { notices = map (λ n. if in_set ids n.id then notice_read n else n) s.notices })

-- The state of the module once it is loaded.
unfoldable pub start : Slot → Bool → List RawCase → List Notice → App
unfolding boot
start slot full cs ns = record {
  cases = boot slot cs;
  notices = ns;
  slot = slot;
  storage_full = full;
  rf = no_filters;
  open_id = none;
  overflow = [];
  version = 0;
  listeners = [];
  calls = [];
}

-- What the rest of the client does to the module: a call of one of its functions, or a write to `rf`
-- followed by `bump`.
pub data Step : App → App → Type 0 where
  opens_case : (id : Text) (s : App) → Step s (open_case id s)
  opens_store : (name : Text) (s : App) → Step s (open_store name s)
  closes : (s : App) → Step s (close_drawer s)
  sets_status : (id : Text) (to : CaseStatus) (s : App) → Step s (set_status id to s)
  marks : (nid : Text) (s : App) → Step s (mark_read nid s)
  marks_all : (ids : Option (List Text)) (s : App) → Step s (mark_all_read ids s)
  clears : (s : App) → Step s (clear_filters s)
  filters : (rf : ReviewFilters) (s : App) → Step s (bump (record s { rf = rf }))
  subscribes : (l : ℕ) (s : App) → Step s (subscribe l s)
  unsubscribes : (l : ℕ) (s : App) → Step s (unsubscribe l s)

pub data Reach (s : App) : App → Type 0 where
  here : Reach s s
  next : {t u : App} → Reach s t → Step t u → Reach s u
