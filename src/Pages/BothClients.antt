-- ===== src/Pages/BothClients.antt =====
-- The list of reviews of the admin client against the list of the mobile client.
use wachen.Base.{◌≡◌}
use wachen.Base.Predicates.{Pairs}
use wachen.Case
use wachen.Case.{WaCase}
use wachen.Mobile.Domain.{Case}
use wachen.Filter.Admin
use wachen.Filter.Mobile

-- One case, as each client has it: all that the lists read agrees.
pub record SameCase (c : WaCase) (d : Case) : Type 0 where
  pub store : c.store ≡ d.store
  pub summary : c.summary ≡ d.summary
  pub review_content : c.review_content ≡ d.review_content
  pub keywords : c.keywords ≡ d.keywords
  pub author_name : c.author_name ≡ d.author_name
  pub brand : c.brand ≡ d.brand
  pub risk_level : c.risk_level ≡ d.risk_level
  pub sentiment : c.sentiment ≡ d.sentiment
  pub cstatus : c.cstatus ≡ d.cstatus
  pub categories : c.categories ≡ d.categories
  pub sla_due_at : c.sla_due_at ≡ d.sla_due_at
  pub posted_at : c.posted_at ≡ d.posted_at

-- The same filters, under the names that the mobile client has for them.
abbrev pub on_mobile : wachen.Case.ReviewFilters → wachen.Filter.Mobile.ReviewFilters
on_mobile rf = record {
  q = rf.q;
  brand = rf.brand;
  store = rf.store;
  risk = rf.risk;
  sentiment = rf.sent;
  status = rf.status;
  category = rf.cat;
  overdue_only = rf.overdue;
}
