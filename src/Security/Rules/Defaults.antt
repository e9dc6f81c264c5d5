-- ===== src/Security/Rules/Defaults.antt =====
-- The default rules of agent_framework/tool_security.py, for what re.compile gives of a pattern and the
-- flag re.I.
use serac.Common.{Bool, true, false, List, [], ◌∷◌, String}
use serac.Common.Chars.{codes}
use serac.Security.Rules.{SanitizationRule}

module _ {P : Type 0} (compile : String → Bool → P) where
  abbrev pub made : String → Bool → String → String → SanitizationRule P
  made pattern ignore_case replacement category = record {
    pattern = compile pattern ignore_case;
    replacement = codes replacement;
    category = category;
    custom = false;
  }

  abbrev pub default_rules : List (SanitizationRule P)
  default_rules =
      made "\\bsk[-_][a-zA-Z0-9]{10,}\\b" false "[API_KEY]" "api_key"
      ∷ made "\\b[A-Z]{20,}[-_]?KEY\\b" false "[API_KEY]" "api_key"
      ∷ made "\\b[xX]-?api[-_]?key[:\\s=]+[a-zA-Z0-9]{10,}\\b" true "[API_KEY]" "api_key"
      ∷ made "\\b10\\.\\d{1,3}\\.\\d{1,3}\\.\\d{1,3}\\b" false "[INTERNAL_IP]" "internal_network"
      ∷ made "\\b172\\.(1[6-9]|2\\d|3[01])\\.\\d{1,3}\\.\\d{1,3}\\b" false "[INTERNAL_IP]"
          "internal_network"
      ∷ made "\\b192\\.168\\.\\d{1,3}\\.\\d{1,3}\\b" false "[INTERNAL_IP]" "internal_network"
      ∷ made "\\blocalhost\\b" false "[LOCALHOST]" "internal_network"
      ∷ made "\\b127\\.\\d{1,3}\\.\\d{1,3}\\.\\d{1,3}\\b" false "[LOCALHOST]" "internal_network"
      ∷ made "(?:/home/|/work/|/var/|/etc/|/root/)[^\\s]{3,}" false "[FILE_PATH]" "file_system"
      ∷ made "(?:/repo/|/tmp/workspace)[^\\s]{1,}" false "[SANDBOX_PATH]" "file_system"
      ∷ made "\\b[a-zA-Z0-9._%+-]+@[a-zA-Z0-9.-]+\\.[a-zA-Z]{2,}\\b" false "[EMAIL]" "personal"
      ∷ made "ssh-[a-zA-Z0-9+/=]{20,}" false "[SSH_KEY]" "credential"
      ∷ made "\\bghp_[a-zA-Z0-9]{36,}\\b" false "[GITHUB_TOKEN]" "credential"
      ∷ made "(?:password|secret|token|apikey|api_key)\\s*[:=]\\s*[^\\s]{4,}" true "[SECRET]"
          "credential"
      ∷ made "\\b\\d{4}\\.\\w+\\.internal\\b" false "[INTERNAL_HOST]" "internal_network"
      ∷ made "\\b\\d{4}\\.serac\\.local\\b" false "[INTERNAL_HOST]" "internal_network"
      ∷ made "\\b[A-Z0-9]{4}(AKIA|ASIA)[A-Z0-9]{16}\\b" false "[AWS_KEY]" "credential"
      ∷ made "(?:postgres|mysql|mongodb|redis)://[^\\s]+" true "[DB_URI]" "credential"
      ∷ made "\\beyJ[A-Za-z0-9_-]+\\.eyJ[A-Za-z0-9_-]+\\.[A-Za-z0-9_-]+\\b" false "[JWT]"
          "credential"
      ∷ made "-----BEGIN (?:RSA |EC |OPENSSH )?PRIVATE KEY-----" false "[PRIVATE_KEY]" "credential"
      ∷ made "\\bxox[bps]-[a-zA-Z0-9]+\\b" false "[SLACK_TOKEN]" "credential"
      ∷ made "Bearer\\s+[A-Za-z0-9._-]{20,}" false "[BEARER_TOKEN]" "credential"
      ∷ []
