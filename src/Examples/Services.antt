-- ===== src/Examples/Services.antt =====
-- Tables of src/servlet/servlet.cpp and src/async/fdmanager.cpp, and the theorems on them.
use cpp_server_framework.Prelude.{
  ◌≡◌, refl, Bool, true, false, [], ◌∷◌, none, some, is_text, if◌then◌else◌, arith,
}
use cpp_server_framework.Servlet.{
  Uri, ServletDispatch, add_matched_servlet, add_fuzzy_servlet, del_matched_servlet,
  del_fuzzy_servlet, get_matched_servlet, get_fuzzy_servlet,
}
use cpp_server_framework.Servlet.Dispatch.{IsDistinct, servlets-IsDistinct}
use cpp_server_framework.FdManager.{FdManager, new_fd_ctx, new_fd_manager, get}
use cpp_server_framework.FdManager.Contexts.{IsFound, get-IsFound}

abbrev uri_a : Uri
uri_a = 47 ∷ 97 ∷ []

abbrev uri_b : Uri
uri_b = 47 ∷ 98 ∷ []

abbrev two_servlets : ServletDispatch
two_servlets = record {
  datas = (uri_a, some 1) ∷ [];
  fuzzy = (uri_a, some 2) ∷ ((uri_b, some 3) ∷ []);
  default_servlet = some 0;
}

servlets-IsDistinct_example :
    (IsDistinct (add_matched_servlet uri_a (some 4) two_servlets)
      × IsDistinct (del_matched_servlet uri_a two_servlets))
    × (IsDistinct (add_fuzzy_servlet uri_a (some 4) two_servlets)
        × IsDistinct (del_fuzzy_servlet uri_a two_servlets))
    × (get_matched_servlet uri_b (add_matched_servlet uri_a (some 4) two_servlets)
        ≡ (if is_text uri_a uri_b then some 4 else get_matched_servlet uri_b two_servlets))
    × (get_matched_servlet uri_b (del_matched_servlet uri_a two_servlets)
        ≡ (if is_text uri_a uri_b then none else get_matched_servlet uri_b two_servlets))
    × (get_fuzzy_servlet uri_b (add_fuzzy_servlet uri_a (some 4) two_servlets)
        ≡ (if is_text uri_a uri_b then some 4 else get_fuzzy_servlet uri_b two_servlets))
    × (get_fuzzy_servlet uri_b (del_fuzzy_servlet uri_a two_servlets)
        ≡ (if is_text uri_a uri_b then none else get_fuzzy_servlet uri_b two_servlets))
servlets-IsDistinct_example =
    servlets-IsDistinct two_servlets uri_a uri_b (some 4) (record { exact = refl; patterns = refl })

abbrev matches_all : Uri → Uri → Bool
matches_all pattern u = true

abbrev no_fds : FdManager
no_fds = new_fd_manager (λ p. (new_fd_ctx none false 0).ctx)

get-IsFound_example :
    IsFound
      (some true)
      (some true)
      false
      false
      false
      100
      8
      no_fds
      (get (some true) false 7 (some 100) true no_fds)
get-IsFound_example =
    get-IsFound (some true) (some true) false false false 100 7 8 no_fds (omega arith)
