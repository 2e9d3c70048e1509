-- ===== src/Yarn/Tests/Composed.antt =====
-- YarnBackend.go over a small linux_backend with one container.
use garden_linux.Common.{
  ℕ, ◌<◌, ◌≡◌, refl, ◌&&◌, ◌||◌, List, [], ◌∷◌, some, ltb, Outcome, ok, Text, codes, text_beq,
  text_eq, nat_eq,
}
use garden_linux.Common.Map.{Map, insert, has_key, lookup}
use garden_linux.Repository.Latest.{Op, adds, run}
use garden_linux.Backend.Tests.{small, settings, web}
use garden_linux.Yarn.Nide.{LimitTypes, YarnContainer, Info, nm_handler, blank, info}
use garden_linux.Yarn.Server.{RealBackend, YarnBackend, bulk_info, current}
use garden_linux.Yarn.Handles.{occurs}
use garden_linux.Yarn.Linux.{linux, is_known, bulk_info-linux}

abbrev unlimited : LimitTypes
unlimited = record {
  Bandwidth = ℕ;
  Cpu = ℕ;
  Disk = ℕ;
  Memory = ℕ;
  no_bandwidth = 0;
  no_cpu = 0;
  no_disk = 0;
  no_memory = 0;
}

abbrev state_only : Info → Text
state_only i = i.state

abbrev wrapped : RealBackend
wrapped = linux small settings (λ spec. codes "docker:x") state_only (λ m. m.rss) (λ c w. 5)

abbrev adds_web : List (Op (Text × Text))
adds_web = adds web ∷ []

abbrev over_linux : YarnBackend wrapped unlimited
over_linux = record {
  real_backend = (run small.handle adds_web [], []);
  store = blank ∷ [];
  yarn_container = some 0;
}

abbrev asked : List Text
asked = codes "web" ∷ codes "nobody" ∷ nm_handler ∷ []

abbrev answered : Map Text (Outcome Text Text)
answered = insert nm_handler (ok (codes "stopped")) (insert (codes "web") (ok web.0) [])

bulk_info-linux_example :
    let repo = run small.handle adds_web [] in
    ((h : Text)
      → has_key h answered ≡ ((is_known h repo || text_beq h nm_handler) && ltb 0 (occurs h asked)))
    × ((c : YarnContainer unlimited)
        → current over_linux ≡ some c
        → 0 < occurs nm_handler asked
        → lookup nm_handler answered ≡ some (ok (info c).state))
unfolding bulk_info blank insert garden_linux.Backend.Bulk.bulk_info garden_linux.Repository.query
    run garden_linux.Repository.add
bulk_info-linux_example =
    bulk_info-linux small settings (λ spec. codes "docker:x") state_only (λ m. m.rss) (λ c w. 5)
      adds_web over_linux asked answered refl refl
