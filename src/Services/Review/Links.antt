-- ===== src/Services/Review/Links.antt =====
-- The sections of a document and their links to allocations, as `confirm_review`
-- (backend/src/hyc_api/services/p3.py) reads and writes them.
use hanyangchem_qc_v.Base.{
  ℕ, Bool, true, false, not, ◌&&◌, Option, none, some, List, [], ◌∷◌, ◌++◌, any, filter, find?,
  str_eq, ◌==◌, ok, ◌>>◌, raise_if,
}
use hanyangchem_qc_v.Store.{DocumentSection, DocumentAllocationLink, Store}
use hanyangchem_qc_v.Services.{Service, allocation_conflict}
use hanyangchem_qc_v.Services.Intake.{found_or_new}

-- A section of the document, and its confirmed allocations.
abbrev pub section_of : Store → ℕ → Option DocumentSection
section_of store document =
    find? (λ (s : DocumentSection). s.document_id == document) store.sections

abbrev pub confirmed_links : Store → Option DocumentSection → List DocumentAllocationLink
confirmed_links store none = []
confirmed_links store (some s) =
    filter
      (λ (l : DocumentAllocationLink).
        l.document_section_id == s.id && str_eq l.match_status "CONFIRMED")
      store.links

-- Whether the section is linked to another allocation.
abbrev pub links_elsewhere : ℕ → List DocumentAllocationLink → Bool
links_elsewhere allocation [] = false
links_elsewhere allocation (l ∷ []) = not (l.receipt_lot_allocation_id == allocation)
links_elsewhere allocation (l ∷ k ∷ ls) = true

abbrev pub new_section : ℕ → ℕ → DocumentSection
new_section i document = record {
  id = i;
  document_id = document;
  section_index = 1;
  page_from = 1;
  page_to = 1;
  status = "MATCHED";
}

-- The section that is used, which is new where the document has none, and the sections.
abbrev pub section_left : Store → ℕ → ℕ → DocumentSection × List DocumentSection
section_left store fresh document =
    found_or_new (section_of store document) (new_section fresh document) store.sections

-- The link of the section, which a link of the same allocation that is not confirmed forestalls.
unfoldable pub with_link :
    List DocumentAllocationLink → ℕ → ℕ → Bool → Service (List DocumentAllocationLink)
with_link links section allocation true = ok links
with_link links section allocation false =
    raise_if
      (any
        (λ (l : DocumentAllocationLink).
          l.document_section_id == section && l.receipt_lot_allocation_id == allocation)
        links)
      allocation_conflict
    >> ok (
        links
        ++ record {
          document_section_id = section;
          receipt_lot_allocation_id = allocation;
          match_status = "CONFIRMED";
        }
          ∷ [])
