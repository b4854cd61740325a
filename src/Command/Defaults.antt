-- ===== src/Command/Defaults.antt =====
-- The default lists of pkg/securityruntime/command.go.
use labtether_linux.Base.{List, [], ◌∷◌}
use labtether_linux.Base.Text.{Text, codes}

unfoldable pub default_allowed_exec_binaries : List Text
default_allowed_exec_binaries =
    codes "apk"
    ∷ codes "apt"
    ∷ codes "apt-get"
    ∷ codes "ash"
    ∷ codes "bash"
    ∷ codes "brew"
    ∷ codes "cat"
    ∷ codes "choco"
    ∷ codes "cmd"
    ∷ codes "dash"
    ∷ codes "defaults"
    ∷ codes "df"
    ∷ codes "dnf"
    ∷ codes "docker"
    ∷ codes "docker-compose"
    ∷ codes "dpkg-query"
    ∷ codes "dscl"
    ∷ codes "du"
    ∷ codes "ffmpeg"
    ∷ codes "free"
    ∷ codes "grep"
    ∷ codes "gst-inspect-1.0"
    ∷ codes "gst-launch-1.0"
    ∷ codes "head"
    ∷ codes "ifconfig"
    ∷ codes "ip"
    ∷ codes "istats"
    ∷ codes "journalctl"
    ∷ codes "launchctl"
    ∷ codes "loginctl"
    ∷ codes "log"
    ∷ codes "ls"
    ∷ codes "lscpu"
    ∷ codes "netplan"
    ∷ codes "netsh"
    ∷ codes "netstat"
    ∷ codes "networksetup"
    ∷ codes "needs-restarting"
    ∷ codes "nmcli"
    ∷ codes "osascript"
    ∷ codes "osx-cpu-temp"
    ∷ codes "pacman"
    ∷ codes "pbcopy"
    ∷ codes "pbpaste"
    ∷ codes "ping"
    ∷ codes "plutil"
    ∷ codes "powershell"
    ∷ codes "ps"
    ∷ codes "pwsh"
    ∷ codes "route"
    ∷ codes "rpm"
    ∷ codes "sc"
    ∷ codes "sensors"
    ∷ codes "sh"
    ∷ codes "sysctl"
    ∷ codes "system_profiler"
    ∷ codes "systemctl"
    ∷ codes "schtasks"
    ∷ codes "tailscale"
    ∷ codes "tail"
    ∷ codes "tmux"
    ∷ codes "top"
    ∷ codes "uname"
    ∷ codes "uptime"
    ∷ codes "vncserver"
    ∷ codes "tvnserver"
    ∷ codes "wevtutil"
    ∷ codes "winget"
    ∷ codes "winvnc4"
    ∷ codes "who"
    ∷ codes "wl-copy"
    ∷ codes "wl-paste"
    ∷ codes "xvfb"
    ∷ codes "x11vnc"
    ∷ codes "xauth"
    ∷ codes "xsetroot"
    ∷ codes "xterm"
    ∷ codes "yum"
    ∷ codes "xclip"
    ∷ codes "xdotool"
    ∷ codes "xmodmap"
    ∷ codes "labtether-x11-input"
    ∷ codes "ydotool"
    ∷ codes "xrandr"
    ∷ codes "xsel"
    ∷ codes "xset"
    ∷ codes "zsh"
    ∷ codes "zypper"
    ∷ []

unfoldable pub default_shell_allowlist_prefixes : List Text
default_shell_allowlist_prefixes =
    codes "cmd /c echo"
    ∷ codes "uptime"
    ∷ codes "uname"
    ∷ codes "df"
    ∷ codes "du"
    ∷ codes "free"
    ∷ codes "ps"
    ∷ codes "top"
    ∷ codes "journalctl"
    ∷ codes "systemctl status"
    ∷ codes "docker ps"
    ∷ codes "docker images"
    ∷ codes "ls"
    ∷ codes "cat"
    ∷ codes "grep"
    ∷ codes "tail"
    ∷ codes "head"
    ∷ []

unfoldable pub default_shell_blocked_substrings : List Text
default_shell_blocked_substrings =
    codes "rm -rf /"
    ∷ codes ":(){ :|:& };:"
    ∷ codes "mkfs"
    ∷ codes "systemctl poweroff"
    ∷ codes "systemctl reboot"
    ∷ codes "systemctl halt"
    ∷ []

unfoldable pub default_shell_blocked_tokens : List Text
default_shell_blocked_tokens =
    codes "shutdown" ∷ codes "reboot" ∷ codes "halt" ∷ codes "poweroff" ∷ codes "init" ∷ []
