-- ===== src/Proxy/Server/Index.antt =====
-- src/proxy/server.rs: the page that a request without a target gets.
use unroxy.Base.{
  ℕ, zero, suc, ◌+◌, ◌-◌, ◌%◌, ◌/◌, ◌||◌, Option, none, some, List, [], ◌∷◌, ◌++◌, length, filter,
  any, replicate, ltb, ◌==◌, if◌then◌else◌,
}
use unroxy.Base.Text.{Text, codes, is_empty}
use unroxy.Proxy.Pool.{Protocol, ssh, vpn, same_protocol}
use unroxy.Proxy.Server.{Response}
use unroxy.Proxy.Server.Regions.{Heap, Proxy}
use unroxy.Proxy.Server.Regions.Routes.{PoolStat, stats}

-- The digits of a number, with as many steps as it has digits or more.
decimal_from : ℕ → ℕ → Text
decimal_from zero n = []
decimal_from (suc fuel) n =
    let front = decimal_from fuel (n / 10) in
    let digit = (b'0' + n % 10) ∷ [] in if ltb n 10 then digit else front ++ digit

-- `usize::to_string`: a number below 2 ^ 64 has at most 20 digits.
unfoldable pub decimal : ℕ → Text
unfolding decimal_from
decimal n = decimal_from 20 n

-- A line break behind a text.
abbrev line : Text → Text
line text = text ++ (10 ∷ [])

-- The host header as it is shown.
abbrev shown_host : Option Text → Text
shown_host none = codes "localhost:8080"
shown_host (some host) = if is_empty host then codes "localhost:8080" else host

abbrev usage : Text → Text
usage host =
    line (codes "Usage")
    ++ (line (codes "─────")
        ++ (line (codes "  HTTP      curl -x http://" ++ (host ++ codes " http://ipwho.is"))
            ++ (line (codes "  CONNECT   curl -x http://" ++ (host ++ codes " https://ipwho.is"))
                ++ (line (
                      codes "  Region    curl -x http://us@" ++ (host ++ codes " https://ipwho.is"))
                    ++ (line (codes "  Rewrite   curl http://" ++ (host ++ codes "/ipwho.is"))
                        ++ (line (
                              codes "            curl http://"
                              ++ (host ++ codes "/https://ipwho.is"))
                            ++ (line (
                                  codes "  Protocol  curl http://"
                                  ++ (host ++ codes "/ssh/ca/ipwho.is"))
                                ++ line (
                                    codes "            curl http://"
                                    ++ (host ++ codes "/vpn/ca/ipwho.is")))))))))

abbrev entry_text : PoolStat → Text
entry_text stat =
    if ltb 0 stat.tunnels
    then stat.name
      ++ (codes "(" ++ (decimal stat.usable ++ (codes "/" ++ (decimal stat.tunnels ++ codes ")"))))
    else stat.name ++ (codes "(" ++ (decimal stat.proxies ++ codes ")"))

-- `{entry:<12}`
pad : ℕ → Text → Text
pad width entry = entry ++ replicate (width - length entry) 32

-- The entries of the pools, five in a line.
entries : ℕ → List PoolStat → Text
entries index [] = []
entries index (stat ∷ more) =
    let entry = pad 12 (entry_text stat) in
    let rest = entries (suc index) more in
    (if index % 5 == 0 then codes "  " ++ entry else entry)
    ++ ((if (index % 5 == 4) || (length more == 0) then 10 ∷ [] else []) ++ rest)

sum_stats : (PoolStat → ℕ) → List PoolStat → ℕ
sum_stats f [] = 0
sum_stats f (stat ∷ more) = f stat + sum_stats f more

abbrev with_protocol : Protocol → List PoolStat → ℕ
with_protocol p all_stats =
    length (filter (λ (s : PoolStat). any (λ q. same_protocol q p) s.protocols) all_stats)

totals : List PoolStat → Text
totals all_stats =
    let tunnels = sum_stats (λ s. s.tunnels) all_stats in
    let usable = sum_stats (λ s. s.usable) all_stats in
    let proxies = sum_stats (λ s. s.proxies) all_stats in
    (if ltb 0 tunnels
      then (10 ∷ codes "Total: ")
        ++ (decimal usable ++ (codes "/" ++ line (decimal tunnels ++ codes " usable")))
      else (10 ∷ codes "Total: ") ++ line (decimal proxies ++ codes " proxies"))
    ++ line (
        codes "Pools: "
        ++ (decimal (with_protocol ssh all_stats)
            ++ (codes " ssh, " ++ (decimal (with_protocol vpn all_stats) ++ codes " vpn"))))

-- The part on the pools, where there are regions.
pools_text : List PoolStat → Text
pools_text [] = []
pools_text (stat ∷ more) =
    (10 ∷ line (codes "Pools"))
    ++ (line (codes "─────") ++ (entries 0 (stat ∷ more) ++ totals (stat ∷ more)))

unfoldable pub index_page : Proxy → Heap → Option Text → Response
unfolding decimal pad entries sum_stats totals pools_text stats
index_page proxy heap host = record {
  status = 200;
  body = usage (shown_host host) ++ pools_text (stats proxy heap);
}
