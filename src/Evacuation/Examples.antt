-- ===== src/Evacuation/Examples.antt =====
-- The theorem on evacuations, at two tenants, one of which is moved.
use trust_shield.Base.{some, List, [], ◌∷◌}
use trust_shield.Evacuation.{done, Tenant, urls, Cells, evacuate_cell}
use trust_shield.Evacuation.Accounting.{Ended, evacuate_cell-Accounted}

abbrev cells : Cells
cells = record {
  generate_regulator_pack = λ n. done (n ∷ []);
  cell_urls = urls (λ region. some "https://in.example");
  import_pack = λ url pack. done 200;
  flush = λ t. done tt;
  str_int = λ n. "200";
}

abbrev two : List Tenant
two =
    record { tenant_id = "acme"; data_region = "eu" }
    ∷ record { tenant_id = "beta"; data_region = "us" }
    ∷ []

evacuate_cell-Accounted_example : Ended "eu" "in" two (evacuate_cell cells "eu" "in" two)
evacuate_cell-Accounted_example = evacuate_cell-Accounted cells "eu" "in" two
