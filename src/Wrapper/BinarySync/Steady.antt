-- ===== src/Wrapper/BinarySync/Steady.antt =====
-- What a download leaves alone besides files: the process, the metrics, the signals, and which
-- calls fail (`Download` of binarysync.go).
use cnpg_pg_doorman.Base.{ℕ, String, Bool, List, refl, arith}
use cnpg_pg_doorman.Wrapper.World.{
  World, Process, Metrics, Signal, Response, no_response, response, ◌>>=◌,
}
use cnpg_pg_doorman.Wrapper.Calls.{write, touch, chmod, remove, rename, mkdir_all, create_temp}
use cnpg_pg_doorman.Wrapper.Frame.{Keeps, keeps_rules, Keeps-lift}
use cnpg_pg_doorman.Wrapper.Platform.{Platform}
use cnpg_pg_doorman.Wrapper.BinarySpec.{BinarySpec}
use cnpg_pg_doorman.Wrapper.BinarySync.Defs.{
  BinarySyncer, when_not, install_temp, discard, request, create_download, receive, answered,
  download,
}

pub record Steady : Type 0 where
  pub process : Process
  pub metrics : Metrics
  pub sent : List (ℕ × Signal)
  pub fault : ℕ → Bool

abbrev pub steady : World → Steady
steady w = record { process = w.process; metrics = w.metrics; sent = w.sent; fault = w.fault }

steady-touch : Keeps steady touch
unfolding touch
steady-touch = record { at = λ w. refl }

steady-write : (p text : String) → Keeps steady (write p text)
unfolding write
steady-write p text = record { at = λ w. ground arith }

steady-chmod : (p : String) (mode : ℕ) → Keeps steady (chmod p mode)
unfolding chmod
steady-chmod p mode = record { at = λ w. ground arith }

steady-remove : (p : String) → Keeps steady (remove p)
unfolding remove
steady-remove p = record { at = λ w. ground arith }

steady-rename : (a b : String) → Keeps steady (rename a b)
unfolding rename
steady-rename a b = record { at = λ w. ground arith }

steady-mkdir_all : (d : String) → Keeps steady (mkdir_all d)
unfolding mkdir_all
steady-mkdir_all d = record { at = λ w. ground arith }

steady-create_temp : (temp : String → ℕ → String) (d : String) → Keeps steady (create_temp temp d)
unfolding create_temp
steady-create_temp temp d = record { at = λ w. ground arith }

steady-when_not : (b : Bool) (text : String) → Keeps steady (when_not b text)
steady-when_not b text = record { at = λ w. ground arith }

ruleset steady_rules = (
  keeps_rules, steady-touch, steady-write, steady-chmod, steady-remove, steady-rename,
  steady-mkdir_all, steady-create_temp, steady-when_not,
)

module _ (P : Platform) where
  steady-request : (url : String) → Keeps steady (request P url)
  unfolding request
  steady-request url = record { at = λ w. refl }

  steady-create_download : (d : String) → Keeps steady (create_download P d)
  unfolding create_download ◌>>=◌
  steady-create_download d = record {
    at = λ w.
        let w1 = (create_temp P.temp_name d w).1 in
        ground (
          arith,
          (steady-create_temp P.temp_name d).at w,
          (steady-mkdir_all d).at w1,
          (steady-create_temp P.temp_name d).at (mkdir_all d w1).1,
        );
  }

  steady-install_temp : (tmp dest_path : String) → Keeps steady (install_temp P tmp dest_path)
  unfolding install_temp
  steady-install_temp tmp dest_path = search steady_rules depth 12

  steady-receive :
      (body : String) (broken : Bool) (want_sha dest_path tmp : String)
      → Keeps steady (receive P body broken want_sha dest_path tmp)
  unfolding receive
  steady-receive body broken want_sha dest_path tmp =
      search (steady_rules, steady-install_temp) depth 14

  steady-discard : (tmp : String) → Keeps steady (discard P tmp)
  unfolding discard
  steady-discard tmp = search steady_rules depth 12

  steady-answered :
      (r : Response) (want_sha dest_path : String) → Keeps steady (answered P r want_sha dest_path)
  unfolding answered
  steady-answered no_response want_sha dest_path = Keeps-lift _
  steady-answered (response status content_length body broken) want_sha dest_path =
      search (steady_rules, steady-create_download, steady-receive, steady-discard) depth 14

  pub steady-download :
      (s : BinarySyncer) (spec : BinarySpec) (want_sha dest_path : String)
      → Keeps steady (download P s spec want_sha dest_path)
  unfolding download
  steady-download s spec want_sha dest_path =
      search (steady_rules, steady-request, steady-answered) depth 14
