-- ===== src/Tests/Addresses.antt =====
-- Instances for whatsapp-bridge/internal/webhook/validation.go.
use whatsapp_mcp_pro.Base.{◌≡◌, refl, List, [], ◌∷◌, some, true, false, String, str_eq, All}
use whatsapp_mcp_pro.Webhook.Addresses.{
  Ip, v4, v6, quad, endpoint, Url, url_port, Net, blocked_hosts, is_blocked, is_private_ip,
  all_pass, allowed_private_target, lets_through, validate_webhook_url, dial_allowed,
}
use whatsapp_mcp_pro.Webhook.Addresses.Reserved.{Reachable, validated_Reachable, validate-Unguarded}

abbrev hook : String → String → Url
hook host port = record { hostname = host; port = port; scheme = "http" }

-- n8n on this machine is allowed, on its port only.
abbrev home : List Ip → Net
home ips = record {
  parse = λ s. some (hook s "5678");
  equal_fold = str_eq;
  lookup_ip = λ s. some ips;
  allowed = endpoint (v4 (quad 127 0 0 1)) "5678" ∷ [];
  check_off = false;
}

abbrev n8n : Net
n8n = home (v4 (quad 127 0 0 1) ∷ v4 (quad 8 8 8 8) ∷ [])

accepted : validate_webhook_url n8n "n8n.local" ≡ true
unfolding validate_webhook_url is_blocked all_pass is_private_ip allowed_private_target lets_through
    url_port
accepted = refl

-- Another port of this machine is refused, and so is the metadata service.
refused : dial_allowed n8n (some (v4 (quad 127 0 0 1))) "8080" ≡ false
unfolding dial_allowed is_private_ip allowed_private_target lets_through
refused = refl

metadata_refused : dial_allowed n8n (some (v4 (quad 169 254 169 254))) "80" ≡ false
unfolding dial_allowed is_private_ip allowed_private_target lets_through
metadata_refused = refl

dialled : dial_allowed n8n (some (v4 (quad 8 8 8 8))) "5678" ≡ true
unfolding dial_allowed is_private_ip
dialled = refl

validated_Reachable_example :
    ((u : Url) × ((n8n.parse "n8n.local" ≡ some u)
        × ((is_blocked n8n u.hostname blocked_hosts ≡ false)
            × ((ips : List Ip) × ((n8n.lookup_ip u.hostname ≡ some ips)
                  × All (Reachable n8n (url_port u)) ips)))))
    × Reachable n8n "5678" (v4 (quad 8 8 8 8))
validated_Reachable_example =
    validated_Reachable n8n "n8n.local" (v4 (quad 8 8 8 8)) "5678" refl accepted dialled

abbrev unspecified : Net
unspecified = home (v6 0 ∷ v4 (quad 100 100 100 100) ∷ [])

no_block : is_blocked unspecified "::" blocked_hosts ≡ false
unfolding is_blocked
no_block = refl

validate-Unguarded_example :
    (validate_webhook_url unspecified "::" ≡ true)
    × (dial_allowed unspecified (some (v6 0)) (url_port (hook "::" "5678")) ≡ true)
validate-Unguarded_example =
    validate-Unguarded unspecified "::" (hook "::" "5678") (v6 0) (v4 (quad 100 100 100 100) ∷ [])
      refl no_block refl (refl, (refl, tt))
