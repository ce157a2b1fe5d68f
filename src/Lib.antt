-- ===== src/Lib.antt =====
-- The clients of Wachen, the customer-experience hub: the admin client (admin/src, React) and the
-- mobile client (mobile, Expo). Modelled is what they compute: the data layer, the state machine of a
-- case, roles and tenants, filters, statistics, the API client, the shell, the drawer, the charts and
-- most pages of the admin client, and the session, the mock backend, the optimistic updates and the
-- screens of the mobile client. A page is modelled as the record of what it shows and as what its
-- buttons do. Not modelled are styles and animation; the Go backend (only its changes of status), the
-- Python analyzer and the deployment, which are other programs.
--
-- How the parts interact. `Db` holds the cases with what the user changed and writes it to
-- localStorage; `SeedStatus` says how a case starts and `CaseMachine` which changes are offered.
-- `Roles` cuts the cases, notifications and stores of `Db` down to what the current role may see, and
-- clamps that role to the tenant of the account; `Shell` draws the frame from that and redirects.
-- `Filter` and `Stats` work on the cases in scope, and `Pages` on what they give. `Api` is how the
-- pages reach the backend, and what happens when it refuses a token. On the phone, `Mobile.Client`
-- speaks to a server or, without one, `Mobile.Mock` answers; `Mobile.Optimistic` is what a status
-- change does to the cache. `Drawer` shows a case or a store over any page of the admin client, and
-- `Mobile.Screens` and its neighbours are what the phone shows; both draw with charts (`Charts`,
-- `Mobile.Drawn`).
--
-- The files:
--   Base and below: numbers, lists, UTF-16 text, maps by insertion order, stable sorting, split.
--   Time: Date.parse for the formats of the data.
--   Domain, Case: types and records of admin/src/lib/db.ts and mobile/src/types/domain.ts.
--   SeedStatus: seedStatus of admin/src/lib/db.ts and mobile/src/api/mock.ts.
--   CaseMachine: CASE_TRANS (admin/src/lib/db.ts), mobile/src/domain/caseMachine.ts.
--   ServerCase: ACTIONS (admin/src/pages/CaseDetail.tsx), validTransitions
--     (backend/internal/store/api.go), allowedStatuses (backend/internal/service/cases.go);
--     ServerCase/Backend: a change of status from the click to the row of the database and back,
--     with updateStatus and auth of backend/cmd/api/main.go.
--   Db: the operations of admin/src/lib/db.ts; Db/Buttons: the status buttons of
--     admin/src/components/Drawer.tsx; Db/Refinement: the module as a map from ids to entries;
--     Db/Watch: what a component that has subscribed to the version misses.
--   Roles: admin/src/lib/roles.ts, and the clamping in admin/src/App.tsx.
--   Stats: scopedStats of admin/src/lib/roles.ts.
--   Filter: admin/src/lib/filter.ts and mobile/src/state/filters.ts.
--   Shell: Shell of admin/src/App.tsx, with MENU and TITLES of admin/src/lib/roles.ts; Shell/Routing:
--     the routes of App and the redirects between them, over any router.
--   Api: admin/src/api.ts. Pages: Dashboard, Cases, SlaMonitor, Reviews, StoreBoard, CaseDetail, Inbox,
--     Login, Stores, Causes, Voice, Tasks, AiInsights, Approvals, Pipeline, NotificationsPage and
--     Improve of admin/src/pages; Pages/Settings and Pages/Org are Rules, Org, Sources and
--     Reports; Pages/InboxView, Pages/DetailView, Pages/Rows, Pages/Overview and Pages/Boards are what
--     Inbox, CaseDetail, the tables of cases, Dashboard, StoreBoard and SlaMonitor draw;
--     Pages/Improve/Bars are the bars of Improve; Pages/Listings are the tables of Stores, of StoreRank
--     in Dashboard and of Improve, and the page AiInsights; Pages/BothClients sets the lists of both
--     clients side by side.
--   Charts, Ui, Drawer: charts.tsx, ui.tsx and Drawer.tsx of admin/src/components.
--   Mobile: mobile/src/auth, mobile/src/api, mobile/src/types; the screens of mobile/app are
--     CaseScreen, CaseList, Overview, Menu, LoginView and Screens, their parts
--     (mobile/src/components) CaseItem, KpiCard and Drawn. Mobile/Queries are the requests of the
--     hooks of mobile/src/api/queries.ts, with the types that the hooks promise for the answers;
--     Mobile/Journey is a press of a button from the screen of a case to the mock and back.
--   Samples: data for the runs in the modules called Tests.
--
-- Conventions. Text is a list of UTF-16 units. Optional and nullable values are options; the empty
-- text of a filter is an empty text or no choice. Numbers that JavaScript computes here stay whole
-- and small, so they are natural numbers; NaN is `none`. A quotient (a width, a percentage, an
-- average) is exact, rounded as the program rounds it; the doubles of the program may fall on the
-- other side of a half. Module variables are the fields of a state, and a function that changes
-- them returns the new state. Objects that two collections share are one list that both views read.
-- Date.now, toLowerCase, localeCompare, fetch and the pathname of a URL belong to the host and are
-- arguments. Recursion is structural. Only `Shell.Routing.settle` takes fuel, the number of pages
-- that the browser may draw before it comes to rest: three are enough, whatever the address.
pub mod Base
pub mod Time
pub mod Domain
pub mod Case
pub mod Samples
pub mod SeedStatus
pub mod CaseMachine
pub mod ServerCase
pub mod Db
pub mod Roles
pub mod Shell
pub mod Filter
pub mod Stats
pub mod Charts
pub mod Ui
pub mod Pages
pub mod Drawer
pub mod Api
pub mod Mobile
