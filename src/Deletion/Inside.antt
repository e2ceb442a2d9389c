-- ===== src/Deletion/Inside.antt =====
-- Where the links of a path lead that a deletion removes.
use novel_crawler.Prelude.{String, ◌≡◌, ok}
use novel_crawler.Deletion.Paths.{IsBelow}
use novel_crawler.Deletion.Manifest.{Json}
use novel_crawler.Deletion.Disk.{Place, Root, Disk, root_place, place_of}

module _ {F : Type 0} (disk : Disk F) where
  -- The links of a place lead strictly below where the links of its root lead.
  abbrev pub LeadsInside : Root → Place → F → Type 0
  LeadsInside r place f =
      (root : Place) × (there : Place) × (disk.resolve (root_place disk r) f ≡ ok root)
      × (disk.resolve place f ≡ ok there)
      × IsBelow root there

  module _ (json : Json) where
    -- Where the text of a manifest leads.
    abbrev pub Inside : Root → String → F → Type 0
    Inside r value f = LeadsInside r (place_of disk r value) f
