-- ===== src/Drawer/Privacy.antt =====
-- What the drawer shows of the customer.
use wachen.Base.{Text}
use wachen.Case.{WaCase}

-- The case of a customer of that name.
abbrev pub named : Text → WaCase → WaCase
named t c = record c { raw = record c.raw { author_name = t } }
