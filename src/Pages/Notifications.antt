-- ===== src/Pages/Notifications.antt =====
-- `admin/src/pages/NotificationsPage.tsx`: the notifications in scope, their buttons, and the one that
-- marks all of them as read.
pub mod Marking
use wachen.Base.{Bool, not, List, [], ◌∷◌, ◌++◌, map, Option, none, some, Text, utf16}
use wachen.Case.{Notice, NoticeLevel}
use wachen.Db.{App, mark_all_read, mark_read, open_case}
use wachen.Roles.Table.{Role}
use wachen.Roles.Scope.{truthy, scoped_notifications}
use wachen.Drawer.Facts.{fmt_dt}

-- A row; the first button is there where it has a case to open.
pub record NoticeRow : Type 0 where
  pub id : Text
  pub level : NoticeLevel
  pub dim : Bool
  pub is_new : Bool
  pub title : Text
  pub body : Text
  pub foot : Text
  pub opens : Option Text

unfoldable pub notice_row : Notice → NoticeRow
unfolding fmt_dt
notice_row n = record {
  id = n.id;
  level = n.level;
  dim = n.read;
  is_new = not n.read;
  title = n.title;
  body = n.body;
  foot = n.type ++ utf16 " · " ++ n.channel ++ utf16 " · " ++ fmt_dt n.time;
  opens = truthy n.case_id;
}

-- `ns`
unfoldable pub listed : Role → App → List Notice
unfolding scoped_notifications
listed role s = scoped_notifications role s.cases s.notices

unfoldable pub rows : Role → App → List NoticeRow
unfolding listed notice_row
rows role s = map notice_row (listed role s)

-- The button of the page.
unfoldable pub mark_listed : Role → App → App
unfolding listed mark_all_read
mark_listed role s = mark_all_read (some (map (λ n. n.id) (listed role s))) s

-- The buttons of a row.
unfoldable pub press_open : NoticeRow → App → App
press_open r s = open_if r.opens
  where
    open_if : Option Text → App
    open_if none = s
    open_if (some id) = open_case id s

unfoldable pub press_read : NoticeRow → App → App
press_read r s = mark_read r.id s
